-- ===== src/Mesh/Precision.antt =====
-- `GetPrecisionBits` and `GetPositionPrecisionInMeters` (pkg/mesh/outgoing_messages.go). An
-- uncertainty is a float of metres; every bound is a whole number, so whole metres are enough.
use matrix_meshtastic.Prelude.{
  ℕ, ◌≤◌, ◌≡◌, ◌≢◌, refl, ◌↔◌, List, [], ◌∷◌, Option, none, some, arith, leb, lookup, nat_eq,
  if◌then◌else◌,
}

bits_of_meters : ℕ → ℕ
bits_of_meters m =
    if leb 23300 m
    then 10
    else if leb 11700 m
    then 11
    else if leb 5800 m
    then 12
    else if leb 2900 m
    then 13
    else if leb 1500 m
    then 14
    else if leb 729 m
    then 15
    else if leb 364 m
    then 16
    else if leb 182 m
    then 17
    else if leb 91 m
    then 18
    else if leb 45 m
    then 19
    else 20

pub get_precision_bits : Option ℕ → ℕ
unfolding bits_of_meters
get_precision_bits none = 0
get_precision_bits (some m) = bits_of_meters m

abbrev precision_map : List (ℕ × ℕ)
precision_map =
    (2, 5976446)
    ∷ (3, 2988223)
    ∷ (4, 1494111)
    ∷ (5, 747055)
    ∷ (6, 373527)
    ∷ (7, 186763)
    ∷ (8, 93381)
    ∷ (9, 46690)
    ∷ (10, 23345)
    ∷ (11, 11672)
    ∷ (12, 5836)
    ∷ (13, 2918)
    ∷ (14, 1459)
    ∷ (15, 729)
    ∷ (16, 364)
    ∷ (17, 182)
    ∷ (18, 91)
    ∷ (19, 45)
    ∷ (20, 22)
    ∷ (21, 11)
    ∷ (22, 5)
    ∷ (23, 2)
    ∷ (24, 1)
    ∷ (32, 0)
    ∷ []

-- A key that is not in the map has the value 0.
abbrev or_zero : Option ℕ → ℕ
or_zero none = 0
or_zero (some m) = m

pub get_position_precision_in_meters : ℕ → ℕ
get_position_precision_in_meters bits = or_zero (lookup bits precision_map)

abbrev pub Returns : ℕ → Type 0
Returns bits = get_precision_bits (some (get_position_precision_in_meters bits)) ≡ bits

-- A precision of 10 to 20 bits, turned into metres and back, is unchanged exactly when it is neither
-- 11 nor 14; 11 bits come back as 12, and 14 as 15.
pub precision_round_trip :
    (bits : ℕ)
    → 10 ≤ bits
    → bits ≤ 20
    → (Returns bits ↔ ((bits ≢ 11) × (bits ≢ 14)))
      × (get_precision_bits (some (get_position_precision_in_meters 11)) ≡ 12)
      × (get_precision_bits (some (get_position_precision_in_meters 14)) ≡ 15)
unfolding get_precision_bits get_position_precision_in_meters bits_of_meters
precision_round_trip bits low high = ((λ r. ground arith, λ r. ground arith), refl, refl)

at_least : (n : ℕ) → 10 ≤ bits_of_meters n
unfolding bits_of_meters
at_least n = ground arith

at_most : (n : ℕ) → bits_of_meters n ≤ 20
unfolding bits_of_meters
at_most n = ground arith

lower : (m n : ℕ) → m ≤ n → bits_of_meters n ≤ bits_of_meters m
unfolding bits_of_meters
lower m n h = ground arith

-- A larger uncertainty never has more bits, and the bits lie between 10 and 20.
pub get_precision_bits_antitone :
    (m n : ℕ)
    → m ≤ n
    → (get_precision_bits (some n) ≤ get_precision_bits (some m))
      × (10 ≤ get_precision_bits (some n))
      × (get_precision_bits (some m) ≤ 20)
unfolding get_precision_bits
get_precision_bits_antitone m n h = (lower m n h, at_least n, at_most m)
