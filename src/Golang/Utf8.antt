-- ===== src/Golang/Utf8.antt =====
-- `for _, r := range s` over a string, and `strings.TrimSpace`. A rune stands as its bytes.
use matrix_meshtastic.Prelude.{
  ℕ, zero, suc, ◌<◌, ◌≡◌, refl, arith, Bool, true, false, not, ◌&&◌, ◌||◌, List, [], ◌∷◌, ◌++◌,
  Bytes, length, take, drop, ltb, leb, nat_beq, if◌then◌else◌,
}

abbrev within : ℕ → ℕ → ℕ → Bool
within lo hi b = leb lo b && leb b hi

-- Whether a number of continuation bytes come next, the first one between two bounds.
follows : ℕ → ℕ → ℕ → Bytes → Bool
follows lo hi zero s = true
follows lo hi (suc n) [] = false
follows lo hi (suc n) (b ∷ s) = within lo hi b && follows 0x80 0xbf n s

-- The number of bytes of the first rune, 0 where the bytes are no UTF-8.
pub width : Bytes → ℕ
unfolding follows
width [] = 0
width (a ∷ s) =
    if ltb a 0x80
    then 1
    else if within 0xc2 0xdf a && follows 0x80 0xbf 1 s
    then 2
    else if (nat_beq a 0xe0 && follows 0xa0 0xbf 2 s)
        || (nat_beq a 0xed && follows 0x80 0x9f 2 s)
        || (within 0xe1 0xef a && not (nat_beq a 0xed) && follows 0x80 0xbf 2 s)
    then 3
    else if (nat_beq a 0xf0 && follows 0x90 0xbf 3 s)
        || (nat_beq a 0xf4 && follows 0x80 0x8f 3 s)
        || (within 0xf1 0xf3 a && follows 0x80 0xbf 3 s)
    then 4
    else 0

-- A byte that starts no rune stands alone.
abbrev first_rune : ℕ → Bytes → Bytes
first_rune zero s = take 1 s
first_rune (suc n) s = take (suc n) s

abbrev after_rune : ℕ → Bytes → Bytes
after_rune zero s = drop 1 s
after_rune (suc n) s = drop (suc n) s

-- A rune takes at least one byte away, so the length of the text is enough fuel.
runes_up_to : ℕ → Bytes → List Bytes
runes_up_to zero s = []
runes_up_to (suc n) [] = []
runes_up_to (suc n) (a ∷ s) =
    first_rune (width (a ∷ s)) (a ∷ s) ∷ runes_up_to n (after_rune (width (a ∷ s)) (a ∷ s))

unfoldable pub runes : Bytes → List Bytes
unfolding width runes_up_to
runes s = runes_up_to (length s) s

concat : List Bytes → Bytes
concat [] = []
concat (r ∷ rs) = r ++ concat rs

-- The runes of Unicode's property White_Space.
is_space : Bytes → Bool
is_space (a ∷ []) = within 9 13 a || nat_beq a 32
is_space (a ∷ b ∷ []) = nat_beq a 0xc2 && (nat_beq b 0x85 || nat_beq b 0xa0)
is_space (a ∷ b ∷ c ∷ []) =
    (nat_beq a 0xe1 && nat_beq b 0x9a && nat_beq c 0x80)
    || (nat_beq a 0xe2
        && nat_beq b 0x80
        && (within 0x80 0x8a c || nat_beq c 0xa8 || nat_beq c 0xa9 || nat_beq c 0xaf))
    || (nat_beq a 0xe2 && nat_beq b 0x81 && nat_beq c 0x9f)
    || (nat_beq a 0xe3 && nat_beq b 0x80 && nat_beq c 0x80)
is_space _ = false

drop_spaces : List Bytes → List Bytes
unfolding is_space
drop_spaces [] = []
drop_spaces (r ∷ rs) = let rest = drop_spaces rs in if is_space r then rest else r ∷ rs

drop_last_spaces : List Bytes → List Bytes
unfolding is_space
drop_last_spaces [] = []
drop_last_spaces (r ∷ rs) = elim (drop_last_spaces rs) [
  | [] ↦ if is_space r then [] else r ∷ []
  | next ∷ rest ↦ r ∷ next ∷ rest
]

-- `strings.TrimSpace`
unfoldable pub trim_space : Bytes → Bytes
unfolding runes concat drop_spaces drop_last_spaces
trim_space s = concat (drop_last_spaces (drop_spaces (runes s)))

-- `string(r)` of a rune that a text was cut into: U+FFFD for a byte that starts none.
abbrev shown : ℕ → Bytes → Bytes
shown zero r = 0xef ∷ 0xbf ∷ 0xbd ∷ []
shown (suc n) r = r

unfoldable pub rune_string : Bytes → Bytes
unfolding width
rune_string r = shown (width r) r

width-ascii : (a : ℕ) (s : Bytes) → a < 0x80 → width (a ∷ s) ≡ 1
unfolding width
width-ascii a s h = ground arith

-- The first rune of a text that starts with ASCII is its first byte.
pub runes-ascii : (a : ℕ) (s : Bytes) → a < 0x80 → runes (a ∷ s) ≡ (a ∷ []) ∷ runes s
unfolding runes
runes-ascii a s h = rw (width-ascii a s h) refl

pub rune_string-ascii : (a : ℕ) → a < 0x80 → rune_string (a ∷ []) ≡ a ∷ []
unfolding rune_string
rune_string-ascii a h = rw (width-ascii a [] h) refl
