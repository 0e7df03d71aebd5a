-- ===== src/Prelude/Ends.antt =====
-- The last element of a list, and what stands before it.
use Prim.Native.Nat.{suc, ◌-◌, ◌<◌}
use mathlib.Core.Path.{◌≡◌, refl, ap}
use mathlib.Core.Logic.{◌≢◌}
use mathlib.Core.List.{List, [], ◌∷◌, ◌++◌}
use native.Mathlib.Omega.{arith}
use matrix_meshtastic.Prelude.Lists.{length, take, drop, length-append, All}

module _ {ℓ} {A : Type ℓ} where
  pub last_byte : (b : A) (s : List A) → (x : A) × (drop (length (b ∷ s) - 1) (b ∷ s) ≡ x ∷ [])
  last_byte b [] = (b, refl)
  last_byte b (c ∷ s) =
      let e : length (b ∷ c ∷ s) - 1 ≡ suc (length (c ∷ s) - 1) = omega arith in
      rw e (last_byte c s)

  pub take-append : (s t : List A) → take (length s) (s ++ t) ≡ s
  take-append [] t = refl
  take-append (c ∷ s) t = ap (λ r. c ∷ r) (take-append s t)

  pub take_init : (s : List A) (b : A) → take (length (s ++ b ∷ []) - 1) (s ++ b ∷ []) ≡ s
  take_init s b =
      let e : length (s ++ b ∷ []) - 1 ≡ length s = omega (arith, length-append s (b ∷ [])) in
      rw e (take-append s (b ∷ []))

  pub length-pos : (s : List A) → s ≢ [] → 0 < length s
  length-pos [] n = absurd (n refl)
  length-pos (b ∷ s) n = omega arith

  pub drop-append : (s t : List A) → drop (length s) (s ++ t) ≡ t
  drop-append [] t = refl
  drop-append (c ∷ s) t = drop-append s t

  pub drop_init : (s : List A) (b : A) → drop (length (s ++ b ∷ []) - 1) (s ++ b ∷ []) ≡ b ∷ []
  drop_init s b =
      let e : length (s ++ b ∷ []) - 1 ≡ length s = omega (arith, length-append s (b ∷ [])) in
      rw e (drop-append s (b ∷ []))

module _ {ℓ κ} {A : Type ℓ} where
  pub All-last : (P : A → Type κ) (s : List A) (x : A) → All P (s ++ x ∷ []) → P x
  All-last P [] x h = h.0
  All-last P (c ∷ s) x h = All-last P s x h.1
