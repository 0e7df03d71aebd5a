-- ===== src/Mesh/Requests/Laws.antt =====
-- How far apart the answers to requests are (pkg/mesh/data_requests.go).
use matrix_meshtastic.Prelude.{
  ℕ, ◌+◌, ◌≤◌, ◌≡◌, Bool, true, false, List, [], ◌∷◌, Option, none, some, All, lookup,
  lookup-insert, subst, Bool-cases, inl, inr, nat_beq_iff, nat_eq, arith, if◌then◌else◌,
}
use matrix_meshtastic.MeshId.Ids.{NodeId}
use matrix_meshtastic.Mesh.World.{RequestThrottle}
use matrix_meshtastic.Mesh.Requests.{can_respond_telemetry, can_respond_neighbor}

-- A request for telemetry or for neighbours that reaches the throttle.
pub record Asked : Type 0 where
  pub for_telemetry : Bool
  pub node : NodeId
  pub at : ℕ

last_of : Bool → RequestThrottle → List (NodeId × ℕ)
last_of true t = t.last_telemetry
last_of false t = t.last_neighbor

pub can_respond : Asked → RequestThrottle → Bool × RequestThrottle
can_respond r t =
    if r.for_telemetry
    then can_respond_telemetry r.node r.at t
    else can_respond_neighbor r.node r.at t

-- The requests that are answered.
pub answered : RequestThrottle → List Asked → List Asked
answered t [] = []
answered t (r ∷ rs) =
    let rest = answered (can_respond r t).1 rs in if (can_respond r t).0 then r ∷ rest else rest

abbrev pub IsSpacedFrom : ℕ → Asked → Asked → Type 0
IsSpacedFrom period r q = q.for_telemetry ≡ r.for_telemetry → q.node ≡ r.node → r.at + period ≤ q.at

-- Each answer is a period behind every earlier one to the same kind of request for the same node.
abbrev pub IsSpaced : ℕ → List Asked → Type 0
IsSpaced period [] = Unit {0}
IsSpaced period (r ∷ rs) = All (IsSpacedFrom period r) rs × IsSpaced period rs

-- The throttle remembers an answer to such a request at this time or later.
abbrev Known : Option ℕ → ℕ → Type 0
Known none at = 1 ≤ 0
Known (some last) at = at ≤ last

abbrev Remembers : RequestThrottle → Asked → Type 0
Remembers t r = Known (lookup r.node (last_of r.for_telemetry t)) r.at

same_period :
    (r : Asked) (t : RequestThrottle) → (can_respond r t).1.throttle_period ≡ t.throttle_period
unfolding can_respond can_respond_telemetry can_respond_neighbor
same_period r t = ground arith

answer_kept :
    (r : Asked) (t : RequestThrottle) → (can_respond r t).0 ≡ true → Remembers (can_respond r t).1 r
unfolding can_respond can_respond_telemetry can_respond_neighbor last_of
answer_kept r t granted = ground (
  arith,
  nat_beq_iff r.node r.node,
  lookup-insert r.node r.node r.at t.last_telemetry,
  lookup-insert r.node r.node r.at t.last_neighbor,
)

keeps_remembering :
    (q r : Asked) (t : RequestThrottle) → Remembers t r → Remembers (can_respond q t).1 r
unfolding can_respond can_respond_telemetry can_respond_neighbor last_of
keeps_remembering q r t m = ground (
  arith,
  nat_beq_iff q.node r.node,
  lookup-insert q.node r.node q.at t.last_telemetry,
  lookup-insert q.node r.node q.at t.last_neighbor,
)

answer_is_late :
    (q r : Asked) (t : RequestThrottle)
    → Remembers t r
    → (can_respond q t).0 ≡ true
    → IsSpacedFrom t.throttle_period r q
unfolding can_respond can_respond_telemetry can_respond_neighbor last_of
answer_is_late q r t m granted kind node = ground arith

later_are_spaced :
    (r : Asked) (t : RequestThrottle) (rs : List Asked)
    → Remembers t r
    → All (IsSpacedFrom t.throttle_period r) (answered t rs)
unfolding answered
later_are_spaced r t [] m = tt
later_are_spaced r t (q ∷ rs) m =
    let rest : All (IsSpacedFrom t.throttle_period r) (answered (can_respond q t).1 rs) =
      subst (λ p. All (IsSpacedFrom p r) (answered (can_respond q t).1 rs)) (same_period q t)
        (later_are_spaced r (can_respond q t).1 rs (keeps_remembering q r t m)) in
    elim (Bool-cases (can_respond q t).0) [
      | inl granted ↦ rw granted (answer_is_late q r t m granted, rest)
      | inr refused ↦ rw refused rest
    ]

-- However the requests come, two answers of the throttle to requests of one kind for one node are
-- at least the throttle's period apart.
pub answers-IsSpaced :
    (t : RequestThrottle) (rs : List Asked) → IsSpaced t.throttle_period (answered t rs)
unfolding answered
answers-IsSpaced t [] = tt
answers-IsSpaced t (r ∷ rs) =
    let t' = (can_respond r t).1 in
    let rest : IsSpaced t.throttle_period (answered t' rs) =
      subst (λ p. IsSpaced p (answered t' rs)) (same_period r t) (answers-IsSpaced t' rs) in
    let all : (can_respond r t).0 ≡ true → All (IsSpacedFrom t.throttle_period r) (answered t' rs) =
      λ granted.
        subst (λ p. All (IsSpacedFrom p r) (answered t' rs)) (same_period r t)
          (later_are_spaced r t' rs (answer_kept r t granted)) in
    elim (Bool-cases (can_respond r t).0) [
      | inl granted ↦ rw granted (all granted, rest)
      | inr refused ↦ rw refused rest
    ]
