-- ===== src/Golang/Base64.antt =====
-- `base64.StdEncoding.EncodeToString`.
use matrix_meshtastic.Prelude.{
  ℕ, ◌+◌, ◌-◌, ◌*◌, ◌/◌, ◌%◌, ◌≡◌, refl, [], ◌∷◌, Bytes, codes, ltb, nat_eq, ◌==◌, if◌then◌else◌,
}

-- The character of a six-bit number in the standard alphabet.
letter : ℕ → ℕ
letter i =
    if ltb i 26
    then b'A' + i
    else if ltb i 52
    then b'a' + (i - 26)
    else if ltb i 62
    then b'0' + (i - 52)
    else if i == 62
    then b'+'
    else b'/'

unfoldable pub encode_to_string : Bytes → Bytes
unfolding letter
encode_to_string [] = []
encode_to_string (a ∷ []) = letter (a / 4) ∷ letter (a % 4 * 16) ∷ b'=' ∷ b'=' ∷ []
encode_to_string (a ∷ b ∷ []) =
    letter (a / 4) ∷ letter (a % 4 * 16 + b / 16) ∷ letter (b % 16 * 4) ∷ b'=' ∷ []
encode_to_string (a ∷ b ∷ c ∷ s) =
    letter (a / 4)
    ∷ letter (a % 4 * 16 + b / 16)
    ∷ letter (b % 16 * 4 + c / 64)
    ∷ letter (c % 64)
    ∷ encode_to_string s

one_byte : encode_to_string (1 ∷ []) ≡ codes "AQ=="
unfolding encode_to_string
one_byte = refl

five_bytes : encode_to_string (codes "mesh!") ≡ codes "bWVzaCE="
unfolding encode_to_string
five_bytes = refl
