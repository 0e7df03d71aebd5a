-- ===== src/Mesh/Reports/Laws.antt =====
-- The neighbour list that is told to the mesh.
use matrix_meshtastic.Prelude.{
  ℕ, ◌≤◌, ◌<◌, ◌≡◌, ◌≢◌, ◌∙◌, ap, sym, map, take, take_all, filter_by, Bool, false, not, ◌&&◌,
  if◌then◌else◌, List, [], ◌∷◌, true, arith, length, length-take, ltb, nat_beq, contains, nat_eq,
  nat_beq_iff, Bool-cases, inl, inr, refl, All-take, All-imp, All,
}
use matrix_meshtastic.Prelude.Int.{pos}
use matrix_meshtastic.External.{Neighbor, neighborinfo_app, neighbor_info_message, Libraries}
use matrix_meshtastic.MeshId.Ids.{NodeId, broadcast_id_no_lora}
use matrix_meshtastic.Mesh.World.{World}
use matrix_meshtastic.Mesh.Send.{PacketInfo, psk_encryption, send_proto_message}
use matrix_meshtastic.Mesh.Reports.{
  kept_neighbors, build_neighbor_info, plain_info, send_neighbor_info_response, send_neighbor_info,
}

abbrev pub IsNeighborOf : NodeId → List NodeId → Neighbor → Type 0
IsNeighborOf from ids n = (n.node_id ≢ from) × (1 < n.node_id) × (contains ids n.node_id ≡ true)

kept_neighbors-All :
    (from : NodeId) (ids : List NodeId) → All (IsNeighborOf from ids) (kept_neighbors from ids)
unfolding kept_neighbors
kept_neighbors-All from [] = tt
kept_neighbors-All from (id ∷ ids) =
    let rest : All (IsNeighborOf from (id ∷ ids)) (kept_neighbors from ids) =
      All-imp (IsNeighborOf from ids) (IsNeighborOf from (id ∷ ids)) (kept_neighbors from ids)
        (λ n h. ground arith) (kept_neighbors-All from ids) in
    ground (arith, nat_beq_iff id id)

-- A node that may be told as a neighbour of another: not that one, and not the IDs 0 and 1.
abbrev pub is_tellable : NodeId → NodeId → Bool
is_tellable from id = not (nat_beq id from) && ltb 1 id

abbrev pub neighbor_of : NodeId → Neighbor
neighbor_of id = record { node_id = id; snr = pos 0 }

kept_neighbors_lem :
    (from : NodeId) (ids : List NodeId)
    → kept_neighbors from ids ≡ map neighbor_of (filter_by (is_tellable from) ids)
unfolding kept_neighbors
kept_neighbors_lem from [] = refl
kept_neighbors_lem from (id ∷ ids) = elim (Bool-cases (is_tellable from id)) [
  | inl e ↦ rw e (ap (λ (ns : List Neighbor). neighbor_of id ∷ ns) (kept_neighbors_lem from ids))
  | inr e ↦ rw e (kept_neighbors_lem from ids)
]

-- A packet for the nodes that are reached without LoRa.
abbrev pub neighbors_packet : NodeId → PacketInfo
neighbors_packet from = record {
  port_num = neighborinfo_app;
  encryption = psk_encryption;
  from = from;
  to = broadcast_id_no_lora;
  request_id = 0;
  reply_id = 0;
  want_response = false;
  emoji = false;
}

take_if_longer :
    (n : ℕ) (ns : List Neighbor) → (if ltb n (length ns) then take n ns else ns) ≡ take n ns
take_if_longer n ns = elim (Bool-cases (ltb n (length ns))) [
  | inl e ↦ rw e refl
  | inr e ↦ rw e (sym (take_all n ns (ground arith)))
]

told_neighbors_lem :
    (from : NodeId) (ids : List NodeId) (interval : ℕ)
    → (build_neighbor_info from (from ∷ ids) interval).neighbors
      ≡ take 10 (map neighbor_of (filter_by (is_tellable from) ids))
unfolding build_neighbor_info
told_neighbors_lem from ids interval =
    let own : is_tellable from from ≡ false = ground (arith, nat_beq_iff from from) in
    take_if_longer 10 (kept_neighbors from (from ∷ ids))
    ∙ ap (take 10) (kept_neighbors_lem from (from ∷ ids) ∙ rw own refl)

module _ (lib : Libraries) where
  -- A broadcast is one message for the whole mesh on the primary channel.
  pub send_neighbor_info_lem :
      (from : NodeId) (ids : List NodeId) (interval : ℕ) (w : World)
      → (send_neighbor_info lib from (from ∷ ids) interval w).1
        ≡ (send_proto_message lib w.client.primary_channel
            (neighbor_info_message (record {
              node_id = from;
              neighbors = take 10 (map neighbor_of (filter_by (is_tellable from) ids));
              last_sent_by_id = from;
              node_broadcast_interval_secs = interval;
            }))
            (neighbors_packet from)
            w).1
  unfolding send_neighbor_info send_neighbor_info_response build_neighbor_info plain_info
  send_neighbor_info_lem from ids interval w = rw (told_neighbors_lem from ids interval) refl

-- The neighbours that are told are the first ten of those that may be told; none of them is the
-- sender itself, an unset ID or the non-LoRa broadcast ID, and all of them are given.
pub build_neighbor_info_lem :
    (from : NodeId) (ids : List NodeId) (interval : ℕ)
    → let told = (build_neighbor_info from ids interval).neighbors in
      (length told ≤ 10)
      × All (IsNeighborOf from ids) told
      × (length (kept_neighbors from ids) ≤ 10 → told ≡ kept_neighbors from ids)
unfolding build_neighbor_info
build_neighbor_info_lem from ids interval =
    let kept = kept_neighbors from ids in
    elim (Bool-cases (ltb 10 (length kept))) [
      | inl more ↦ rw more (
        omega (arith, length-take {0} 10 kept),
        All-take (IsNeighborOf from ids) 10 kept (kept_neighbors-All from ids),
        λ h. ground arith,
      )
      | inr fits ↦ rw fits (ground arith, kept_neighbors-All from ids, λ h. refl)
    ]
