-- ===== src/Golang/Strconv/Laws.antt =====
-- Reading back what `%d` and `%08x` print.
use matrix_meshtastic.Prelude.{
  ℕ, zero, suc, ◌+◌, ◌*◌, ◌/◌, ◌%◌, ◌^◌, ◌≤◌, ◌<◌, ◌≡◌, ◌≢◌, refl, drop, ◌∙◌, [], ◌∷◌, none, some,
  inl, inr, arith, Bytes, Lacks, length, ltb, Bool-cases,
}
use native.Mathlib.Nat.{pow-suc, mod-lt, div-add-mod}
use matrix_meshtastic.Golang.Strconv.{
  max_uint32, digit_value, parse_from, parse_uint, digit_char, hex, format_08x, decimal, format_d,
}

digit_value-digit_char : (d : ℕ) → d < 16 → digit_value (digit_char d) ≡ some d
unfolding digit_value digit_char
digit_value-digit_char d h = ground arith

-- Reading the last digit of `n` after the digits before it gives `n`.
digit_char_lt : (d : ℕ) → d < 10 → digit_char d ≡ b'0' + d
unfolding digit_char
digit_char_lt d h = ground arith

parse_from_last :
    (base n : ℕ) (out : Bytes)
    → base ≤ 16
    → n ≤ max_uint32
    → 0 < base
    → parse_from base (digit_char (n % base) ∷ out) (n / base) ≡ parse_from base out n
unfolding parse_from
parse_from_last base n out hb hn pos =
    let e : n / base * base + n % base ≡ n = grind (arith, div-add-mod n base) in
    let d : n % base < base = mod-lt n pos in
    rw (parse_from, digit_value-digit_char (n % base) (omega arith)) (rw e (ground arith))

parse_from-hex :
    (width n : ℕ) (out : Bytes)
    → n < 16 ^ width
    → n ≤ max_uint32
    → parse_from 16 (hex width n out) 0 ≡ parse_from 16 out n
unfolding hex
parse_from-hex zero n out h hn = let e : n ≡ 0 = omega arith in rw e
parse_from-hex (suc width) n out h hn =
    parse_from-hex width (n / 16) (digit_char (n % 16) ∷ out) (omega (arith, pow-suc 16 width))
      (omega arith)
    ∙ parse_from_last 16 n out (omega arith) hn (omega arith)

parse_from-decimal :
    (fuel n : ℕ) (out : Bytes)
    → n < 10 ^ fuel
    → n ≤ max_uint32
    → parse_from 10 (decimal fuel n out) 0 ≡ parse_from 10 out n
unfolding decimal
parse_from-decimal zero n out h hn = let e : n ≡ 0 = omega arith in rw e
parse_from-decimal (suc fuel) n out h hn =
    let below : n / 10 < 10 ^ fuel = omega (arith, pow-suc 10 fuel) in
    let rest = parse_from-decimal fuel (n / 10) ((b'0' + n % 10) ∷ out) below (omega arith) in
    let last = parse_from_last 10 n out (omega arith) hn (omega arith) in
    let last' = rw (digit_char_lt (n % 10) (omega arith)) at last in
    elim (Bool-cases (ltb n 10)) [
      | inl small ↦
          let low : n % 10 ≡ n = ground arith in
          let none_left : n / 10 ≡ 0 = ground arith in rw small (rw (low, none_left) at last')
      | inr large ↦ rw large (rest ∙ last')
    ]

-- `ParseUint(fmt.Sprintf("%08x", n), 16, 32)` is `n`.
pub parse_uint-format_08x : (n : ℕ) → n ≤ max_uint32 → parse_uint (format_08x n) 16 ≡ (n, none)
unfolding parse_uint format_08x hex
parse_uint-format_08x n h = parse_from-hex 8 n [] (omega arith) h

decimal-ne-nil : (fuel n c : ℕ) (out : Bytes) → decimal fuel n (c ∷ out) ≢ []
unfolding decimal
decimal-ne-nil zero n c out = λ e. cc
decimal-ne-nil (suc fuel) n c out =
    ground (arith, decimal-ne-nil fuel (n / 10) (b'0' + n % 10) (c ∷ out))

format_d-ne-nil : (n : ℕ) → format_d n ≢ []
unfolding format_d decimal
format_d-ne-nil n = ground (arith, decimal-ne-nil 9 (n / 10) (b'0' + n % 10) [])

parse_uint-parse_from : (s : Bytes) (base : ℕ) → s ≢ [] → parse_uint s base ≡ parse_from base s 0
unfolding parse_uint
parse_uint-parse_from [] base h = absurd (h refl)
parse_uint-parse_from (c ∷ s) base h = refl

-- `ParseUint(fmt.Sprintf("%d", n), 10, 32)` is `n`.
pub parse_uint-format_d : (n : ℕ) → n ≤ max_uint32 → parse_uint (format_d n) 10 ≡ (n, none)
unfolding format_d parse_from
parse_uint-format_d n h =
    rw (parse_uint-parse_from _ 10 (format_d-ne-nil n)) (parse_from-decimal 10 n [] (omega arith) h)

-- No other byte than the digits is printed.
hex-Lacks :
    (b width n : ℕ) (out : Bytes)
    → ((d : ℕ) → d < 16 → digit_char d ≢ b)
    → Lacks b out
    → Lacks b (hex width n out)
unfolding hex
hex-Lacks b zero n out other h = h
hex-Lacks b (suc width) n out other h =
    hex-Lacks b width (n / 16) (digit_char (n % 16) ∷ out) other (other (n % 16) (omega arith), h)

pub format_08x-Lacks : (b n : ℕ) → ((d : ℕ) → d < 16 → digit_char d ≢ b) → Lacks b (format_08x n)
unfolding format_08x
format_08x-Lacks b n other = hex-Lacks b 8 n [] other tt

length-hex : (width n : ℕ) (out : Bytes) → length (hex width n out) ≡ width + length out
unfolding hex
length-hex zero n out = omega arith
length-hex (suc width) n out = omega (arith, length-hex width (n / 16) (digit_char (n % 16) ∷ out))

pub length-format_08x : (n : ℕ) → length (format_08x n) ≡ 8
unfolding format_08x
length-format_08x n = length-hex 8 n []

decimal-Lacks : (b fuel n : ℕ) (out : Bytes) → b'9' < b → Lacks b out → Lacks b (decimal fuel n out)
unfolding decimal
decimal-Lacks b zero n out hb h = h
decimal-Lacks b (suc fuel) n out hb h =
    ground (arith, decimal-Lacks b fuel (n / 10) ((b'0' + n % 10) ∷ out))

pub format_d-Lacks : (b n : ℕ) → b'9' < b → Lacks b (format_d n)
unfolding format_d
format_d-Lacks b n h = decimal-Lacks b 10 n [] h tt

pub last_four-format_08x :
    (n : ℕ)
    → drop 4 (format_08x n)
      ≡ digit_char (n / 16 / 16 / 16 % 16)
        ∷ digit_char (n / 16 / 16 % 16)
        ∷ digit_char (n / 16 % 16)
        ∷ digit_char (n % 16)
        ∷ []
unfolding format_08x hex
last_four-format_08x n = refl
