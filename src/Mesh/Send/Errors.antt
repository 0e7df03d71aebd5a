-- ===== src/Mesh/Send/Errors.antt =====
-- When handing a packet over counts as an error (pkg/mesh/mesh_client.go).
use matrix_meshtastic.Prelude.{
  ◌≤◌, ◌<◌, ◌≡◌, ◌≢◌, refl, ◌↔◌, inl, inr, List, [], ◌∷◌, Option, none, arith, Bytes, Error,
  Bool-cases, length, if◌then◌else◌, nat_beq_iff, nat_beq, All,
}
use matrix_meshtastic.External.{MeshPacket}
use matrix_meshtastic.Mesh.World.{MeshConnector, World}
use matrix_meshtastic.Mesh.Send.{join_errors, send_errors, deliver}

length-send_errors :
    (name : Bytes) (pkt : MeshPacket) (hs : List MeshConnector)
    → length (send_errors name pkt hs) ≤ length hs
unfolding send_errors
length-send_errors name pkt [] = omega arith
length-send_errors name pkt (h ∷ hs) = ground (arith, length-send_errors name pkt hs)

-- The connectors that take a packet: `SendPacket` returns no error.
abbrev pub AllFail : Bytes → MeshPacket → List MeshConnector → Type 0
AllFail name pkt = All (λ (h : MeshConnector). h.send_packet name pkt ≢ none)

failing_starts :
    (name : Bytes) (pkt : MeshPacket) (hs : List MeshConnector)
    → length (send_errors name pkt hs) ≡ length hs
    → AllFail name pkt hs
unfolding send_errors
failing_starts name pkt [] e = tt
failing_starts name pkt (h ∷ hs) e =
    ground (arith, failing_starts name pkt hs, length-send_errors name pkt hs)

failing_counts :
    (name : Bytes) (pkt : MeshPacket) (hs : List MeshConnector)
    → AllFail name pkt hs
    → length (send_errors name pkt hs) ≡ length hs
unfolding send_errors
failing_counts name pkt [] f = refl
failing_counts name pkt (h ∷ hs) f = ground (arith, failing_counts name pkt hs f.1)

join_errors-ne-none : (es : List Error) → 0 < length es → join_errors es ≢ none
join_errors-ne-none [] pos = absurd (omega arith)
join_errors-ne-none (e ∷ es) pos = λ z. cc

abbrev outcome : Bytes → MeshPacket → List MeshConnector → Option Error
outcome name pkt hs =
    let errs = send_errors name pkt hs in
    if nat_beq (length errs) (length hs) then join_errors errs else none

outcome_fails :
    (name : Bytes) (pkt : MeshPacket) (hs : List MeshConnector)
    → outcome name pkt hs ≢ none
    → (hs ≢ []) × AllFail name pkt hs
outcome_fails name pkt [] f = unfold send_errors in absurd (f refl)
outcome_fails name pkt (h ∷ hs) f =
    let errs = send_errors name pkt (h ∷ hs) in
    elim (Bool-cases (nat_beq (length errs) (length (h ∷ hs)))) [
      | inl all ↦ ((λ z. cc), failing_starts name pkt (h ∷ hs) ((nat_beq_iff _ _).0 all))
      | inr not_all ↦ absurd (f (rw not_all))
    ]

outcome_of_failures :
    (name : Bytes) (pkt : MeshPacket) (hs : List MeshConnector)
    → hs ≢ []
    → AllFail name pkt hs
    → outcome name pkt hs ≢ none
outcome_of_failures name pkt [] n f = absurd (n refl)
outcome_of_failures name pkt (h ∷ hs) n f =
    let e = failing_counts name pkt (h ∷ hs) f in
    rw ((nat_beq_iff (length (send_errors name pkt (h ∷ hs))) (length (h ∷ hs))).1 e)
      (join_errors-ne-none _ (omega arith))

-- A packet that is handed over counts as sent exactly when a connector takes it or there is no
-- connector: the error is nil if and only if not all of at least one connector fail.
pub deliver_error :
    (name : Bytes) (pkt : MeshPacket) (w : World)
    → let hs = w.client.mesh_connectors in
      ((deliver name pkt w).0.1 ≢ none) ↔ ((hs ≢ []) × AllFail name pkt hs)
unfolding deliver
deliver_error name pkt w =
    let hs = w.client.mesh_connectors in
    (outcome_fails name pkt hs, λ both. outcome_of_failures name pkt hs both.0 both.1)
