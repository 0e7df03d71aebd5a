-- ===== src/Bridge/Periodic/Recent.antt =====
-- The rows that a broadcast of neighbours keeps (`sendPeriodicNeighborInfo` of
-- pkg/connector/background_tasks.go).
use matrix_meshtastic.Prelude.{
  ℕ, ◌+◌, ◌*◌, ◌≤◌, ◌≡◌, refl, sym, ap, ◌∙◌, arith, Bool, true, false, List, [], ◌∷◌, filter_by,
  Bool-cases, ltb, inl, inr, if◌then◌else◌,
}
use matrix_meshtastic.Bridge.Database.{MeshNodeInfo}
use matrix_meshtastic.Bridge.Periodic.{
  rate_neighbor_info, heard, insert_recent, sort_recent, is_fresh, fresh_prefix,
}

-- No row was heard after the row before it.
abbrev pub IsRecentFirst : ℕ → List MeshNodeInfo → Type 0
IsRecentFirst bound [] = Unit
IsRecentFirst bound (row ∷ rows) = (heard row ≤ bound) × IsRecentFirst (heard row) rows

insert_recent-IsRecentFirst :
    (bound : ℕ) (row : MeshNodeInfo) (rows : List MeshNodeInfo)
    → heard row ≤ bound
    → IsRecentFirst bound rows
    → IsRecentFirst bound (insert_recent row rows)
unfolding insert_recent
insert_recent-IsRecentFirst bound row [] b s = (b, tt)
insert_recent-IsRecentFirst bound row (next ∷ rows) b s =
    elim (Bool-cases (ltb (heard next) (heard row))) [
      | inl e ↦ rw e (b, (ground arith, s.1))
      | inr e ↦ rw e (s.0, insert_recent-IsRecentFirst (heard next) row rows (ground arith) s.1)
    ]

pub max_heard : List MeshNodeInfo → ℕ
max_heard [] = 0
max_heard (row ∷ rows) =
    let rest = max_heard rows in if ltb rest (heard row) then heard row else rest

widen : (a b : ℕ) (rows : List MeshNodeInfo) → a ≤ b → IsRecentFirst a rows → IsRecentFirst b rows
widen a b [] h s = tt
widen a b (row ∷ rows) h s = (omega (arith, s.0), s.1)

pub sort_recent-IsRecentFirst :
    (rows : List MeshNodeInfo) → IsRecentFirst (max_heard rows) (sort_recent rows)
unfolding sort_recent max_heard
sort_recent-IsRecentFirst [] = tt
sort_recent-IsRecentFirst (row ∷ rows) =
    insert_recent-IsRecentFirst (max_heard (row ∷ rows)) row (sort_recent rows) (ground arith) (
      widen (max_heard rows) (max_heard (row ∷ rows)) (sort_recent rows) (ground arith)
        (sort_recent-IsRecentFirst rows))

-- Behind a row that is too old all rows are too old.
none_fresh :
    (now bound : ℕ) (rows : List MeshNodeInfo)
    → IsRecentFirst bound rows
    → ltb now (bound + 2 * rate_neighbor_info) ≡ false
    → filter_by (is_fresh now) rows ≡ []
none_fresh now bound [] s e = refl
none_fresh now bound (row ∷ rows) s e =
    let old : is_fresh now row ≡ false = ground (arith, s.0) in
    rw old (none_fresh now (heard row) rows s.1 old)

prefix_is_filter :
    (now bound : ℕ) (rows : List MeshNodeInfo)
    → IsRecentFirst bound rows
    → fresh_prefix now rows ≡ filter_by (is_fresh now) rows
unfolding fresh_prefix
prefix_is_filter now bound [] s = refl
prefix_is_filter now bound (row ∷ rows) s = elim (Bool-cases (is_fresh now row)) [
  | inl e ↦
      rw e (ap (λ (l : List MeshNodeInfo). row ∷ l) (prefix_is_filter now (heard row) rows s.1))
  | inr e ↦ rw e (sym (none_fresh now (heard row) rows s.1 e))
]

filter-IsRecentFirst :
    (now bound : ℕ) (rows : List MeshNodeInfo)
    → IsRecentFirst bound rows
    → IsRecentFirst bound (filter_by (is_fresh now) rows)
filter-IsRecentFirst now bound [] s = tt
filter-IsRecentFirst now bound (row ∷ rows) s =
    let rest = filter-IsRecentFirst now (heard row) rows s.1 in
    elim (Bool-cases (is_fresh now row)) [
      | inl e ↦ rw e (s.0, rest)
      | inr e ↦ rw e (widen (heard row) bound _ s.0 rest)
    ]

insert_first :
    (bound : ℕ) (row : MeshNodeInfo) (rows : List MeshNodeInfo)
    → IsRecentFirst bound rows
    → ltb bound (heard row) ≡ true
    → insert_recent row rows ≡ row ∷ rows
unfolding insert_recent
insert_first bound row [] s e = refl
insert_first bound row (next ∷ rows) s e =
    let later : ltb (heard next) (heard row) ≡ true = ground (arith, s.0) in rw later refl

abbrev insert_if : Bool → MeshNodeInfo → List MeshNodeInfo → List MeshNodeInfo
insert_if true row rows = insert_recent row rows
insert_if false row rows = rows

-- A row that was not heard after the next one goes behind it.
next_first :
    (b : Bool) (row next : MeshNodeInfo) (rows : List MeshNodeInfo)
    → ltb (heard next) (heard row) ≡ false
    → next ∷ insert_if b row rows ≡ insert_if b row (next ∷ rows)
unfolding insert_recent
next_first true row next rows e = rw e refl
next_first false row next rows e = refl

insert_before :
    (now : ℕ) (row next : MeshNodeInfo) (rows : List MeshNodeInfo)
    → IsRecentFirst (heard next) rows
    → ltb (heard next) (heard row) ≡ true
    → filter_by (is_fresh now) (row ∷ next ∷ rows)
      ≡ insert_if (is_fresh now row) row (filter_by (is_fresh now) (next ∷ rows))
insert_before now row next rows s e = elim (Bool-cases (is_fresh now row)) [
  | inl f ↦ rw f (
      sym (
        insert_first (heard next) row _
          (filter-IsRecentFirst now (heard next) (next ∷ rows) (ground arith, s)) e))
  | inr f ↦ rw f refl
]

filter-insert_recent :
    (now bound : ℕ) (row : MeshNodeInfo) (rows : List MeshNodeInfo)
    → IsRecentFirst bound rows
    → filter_by (is_fresh now) (insert_recent row rows)
      ≡ insert_if (is_fresh now row) row (filter_by (is_fresh now) rows)
unfolding insert_recent
filter-insert_recent now bound row [] s = elim (Bool-cases (is_fresh now row)) [
  | inl e ↦ rw e refl
  | inr e ↦ rw e refl
]
filter-insert_recent now bound row (next ∷ rows) s =
    elim (Bool-cases (ltb (heard next) (heard row))) [
      | inl e ↦ rw e (insert_before now row next rows s.1 e)
      | inr e ↦ rw e (elim (Bool-cases (is_fresh now next)) [
        | inl f ↦ rw f (
            ap (λ (l : List MeshNodeInfo). next ∷ l)
              (filter-insert_recent now (heard next) row rows s.1)
            ∙ next_first (is_fresh now row) row next _ e)
        | inr f ↦ rw f (filter-insert_recent now (heard next) row rows s.1)
      ])
    ]

filter-sort_recent :
    (now : ℕ) (rows : List MeshNodeInfo)
    → filter_by (is_fresh now) (sort_recent rows) ≡ sort_recent (filter_by (is_fresh now) rows)
unfolding sort_recent
filter-sort_recent now [] = refl
filter-sort_recent now (row ∷ rows) =
    filter-insert_recent now (max_heard rows) row (sort_recent rows)
      (sort_recent-IsRecentFirst rows)
    ∙ elim (Bool-cases (is_fresh now row)) [
      | inl e ↦ rw e (ap (insert_recent row) (filter-sort_recent now rows))
      | inr e ↦ rw e (filter-sort_recent now rows)
    ]

-- To stop at the first old row of the sorted ones is to sort the recent rows.
pub fresh_prefix-sort_recent :
    (now : ℕ) (rows : List MeshNodeInfo)
    → fresh_prefix now (sort_recent rows) ≡ sort_recent (filter_by (is_fresh now) rows)
fresh_prefix-sort_recent now rows =
    prefix_is_filter now (max_heard rows) (sort_recent rows) (sort_recent-IsRecentFirst rows)
    ∙ filter-sort_recent now rows
