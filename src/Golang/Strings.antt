-- ===== src/Golang/Strings.antt =====
-- `strings.HasPrefix`, `CutPrefix`, `Cut` and `Split`, for a separator that is not empty.
use matrix_meshtastic.Prelude.{
  ℕ, zero, suc, ◌≡◌, refl, List, [], ◌∷◌, ◌++◌, Option, none, some, arith, Bytes, Lacks, length,
  nat_beq, nat_beq_iff, if◌then◌else◌,
}

-- The rest of a text behind a prefix.
abbrev pub strip_prefix : Bytes → Bytes → Option Bytes
strip_prefix [] s = some s
strip_prefix (p ∷ ps) [] = none
strip_prefix (p ∷ ps) (c ∷ s) = if nat_beq p c then strip_prefix ps s else none

abbrev put_before : ℕ → Option (Bytes × Bytes) → Option (Bytes × Bytes)
put_before c none = none
put_before c (some (before, after)) = some (c ∷ before, after)

abbrev first_cut : Option Bytes → Option (Bytes × Bytes) → Option (Bytes × Bytes)
first_cut (some after) later = some ([], after)
first_cut none later = later

-- `strings.Cut`: the text around the first occurrence of the separator.
pub cut : Bytes → Bytes → Option (Bytes × Bytes)
cut sep [] = first_cut (strip_prefix sep []) none
cut sep (c ∷ s) = first_cut (strip_prefix sep (c ∷ s)) (put_before c (cut sep s))

-- Every cut takes at least one byte away, so the length of the text is enough fuel.
split_up_to : ℕ → Bytes → Bytes → List Bytes
split_up_to zero sep s = s ∷ []
split_up_to (suc n) sep s = elim (cut sep s) [
  | none ↦ s ∷ []
  | some (before, after) ↦ before ∷ split_up_to n sep after
]

-- `strings.Split`
pub split : Bytes → Bytes → List Bytes
unfolding cut split_up_to
split s sep = split_up_to (length s) sep s

pub strip_prefix-append : (p s : Bytes) → strip_prefix p (p ++ s) ≡ some s
strip_prefix-append [] s = refl
strip_prefix-append (c ∷ p) s = ground (arith, nat_beq_iff c c, strip_prefix-append p s)

-- The first occurrence is the one that is written, if the text before it lacks the separator's
-- first byte.
pub cut-append :
    (c : ℕ) (sep before after : Bytes)
    → Lacks c before
    → cut (c ∷ sep) (before ++ ((c ∷ sep) ++ after)) ≡ some (before, after)
unfolding cut
cut-append c sep [] after h = rw (strip_prefix-append (c ∷ sep) after)
cut-append c sep (b ∷ before) after h =
    ground (arith, nat_beq_iff c b, cut-append c sep before after h.1)

pub cut-Lacks : (c : ℕ) (sep s : Bytes) → Lacks c s → cut (c ∷ sep) s ≡ none
unfolding cut
cut-Lacks c sep [] h = refl
cut-Lacks c sep (b ∷ s) h = ground (arith, nat_beq_iff c b, cut-Lacks c sep s h.1)

split_up_to-Lacks : (n c : ℕ) (sep s : Bytes) → Lacks c s → split_up_to n (c ∷ sep) s ≡ s ∷ []
unfolding split_up_to
split_up_to-Lacks zero c sep s h = refl
split_up_to-Lacks (suc n) c sep s h = rw (split_up_to, cut-Lacks c sep s h)

-- A text of two parts around one separator is split into these parts.
pub split_pair :
    (c : ℕ) (sep a b : Bytes)
    → Lacks c a
    → Lacks c b
    → split (a ++ ((c ∷ sep) ++ b)) (c ∷ sep) ≡ a ∷ b ∷ []
unfolding split split_up_to
split_pair c sep [] b ha hb =
    rw (split_up_to, cut-append c sep [] b ha) (rw (split_up_to-Lacks _ c sep b hb))
split_pair c sep (x ∷ a) b ha hb =
    rw (split_up_to, cut-append c sep (x ∷ a) b ha) (rw (split_up_to-Lacks _ c sep b hb))
