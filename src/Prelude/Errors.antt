-- ===== src/Prelude/Errors.antt =====
-- Go's errors as values. The program's own errors are named; those of libraries carry a number.
use mathlib.Core.Path.{◌≡◌, refl}
use mathlib.Core.Logic.{◌⊎◌, inl, inr}
use Prim.Native.Nat.{ℕ}

pub data Error : Type 0 where
  from_library : ℕ → Error
  no_primary_channel hop_limit_too_large not_managed message_too_large unknown_encryption : Error
  no_key_handler no_key nil_message zero_sender unknown_channel_hash : Error
  nil_channel sent_too_recently long_name_too_long short_name_too_long no_location : Error
  constraint_violated no_public_key no_private_key node_is_unmessagable : Error
  unsupported_room_type unsupported_message names_required names_too_long : Error
  hop_limit_not_below_maximum no_connection_method removal_not_supported bad_short_user_id : Error

pub data Result {ℓ} (A : Type ℓ) : Type ℓ where
  ok : A → Result A
  err : Error → Result A

pub Result-cases {ℓ} :
    {A : Type ℓ} (result : Result A)
    → ((value : A) × (result ≡ ok value)) ⊎ ((e : Error) × (result ≡ err e))
Result-cases (ok a) = inl (a, refl)
Result-cases (err e) = inr (e, refl)
