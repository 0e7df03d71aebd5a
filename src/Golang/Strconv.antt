-- ===== src/Golang/Strconv.antt =====
-- `strconv.ParseUint` with bit size 32, and the verbs `%d` and `%08x` of `fmt` on a `uint32`.
pub mod Laws
use matrix_meshtastic.Prelude.{
  ℕ, zero, suc, ◌+◌, ◌-◌, ◌*◌, ◌/◌, ◌%◌, Bool, ◌&&◌, [], ◌∷◌, ◌++◌, Option, none, some, Bytes, ltb,
  leb, if◌then◌else◌,
}

pub data NumError : Type 0 where
  syntax range : NumError

abbrev pub max_uint32 : ℕ
max_uint32 = 0xffff_ffff

-- The value of a digit in base 36.
pub digit_value : ℕ → Option ℕ
digit_value c =
    if leb b'0' c && leb c b'9'
    then some (c - b'0')
    else if leb b'a' c && leb c b'z'
    then some (c - b'a' + 10)
    else if leb b'A' c && leb c b'Z'
    then some (c - b'A' + 10)
    else none

-- The loop of `ParseUint`. With bit size 32 the value read so far stays at most 2^32 - 1, so its
-- tests for an overflow of 64 bits never fire.
parse_from : ℕ → Bytes → ℕ → ℕ × Option NumError
parse_from base [] n = (n, none)
parse_from base (c ∷ s) n = elim (digit_value c) [
  | none ↦ (0, some syntax)
  | some d ↦
      let n' = n * base + d in
      let rest = parse_from base s n' in
      if leb base d
      then (0, some syntax)
      else if ltb max_uint32 n'
      then (max_uint32, some range)
      else rest
]

-- `strconv.ParseUint(s, base, 32)`, with the value that it returns beside an error.
unfoldable pub parse_uint : Bytes → ℕ → ℕ × Option NumError
unfolding parse_from digit_value
parse_uint [] base = (0, some syntax)
parse_uint (c ∷ s) base = parse_from base (c ∷ s) 0

-- A digit in lower case.
unfoldable pub digit_char : ℕ → ℕ
digit_char d = if ltb d 10 then b'0' + d else b'a' + (d - 10)

-- The last `width` hexadecimal digits, with zeros in front.
hex : ℕ → ℕ → Bytes → Bytes
hex zero n out = out
hex (suc width) n out = hex width (n / 16) (digit_char (n % 16) ∷ out)

-- `%08x`: a `uint32` has at most eight digits.
unfoldable pub format_08x : ℕ → Bytes
unfolding hex digit_char
format_08x n = hex 8 n []

decimal : ℕ → ℕ → Bytes → Bytes
decimal zero n out = out
decimal (suc fuel) n out =
    let more = decimal fuel (n / 10) ((b'0' + n % 10) ∷ out) in
    if ltb n 10 then (b'0' + n) ∷ out else more

-- `%d`: a `uint32` has at most ten digits.
pub format_d : ℕ → Bytes
unfolding decimal
format_d n = decimal 10 n []
