-- ===== src/Mesh/Incoming/Replay.antt =====
-- Duplicates of a packet (pkg/mesh/incoming_messages.go), under what ttlcache documents of its `Set`
-- and `Has`.
use matrix_meshtastic.Prelude.{
  ℕ, ◌+◌, ◌≤◌, ◌<◌, ◌*◌, ◌^◌, ◌≡◌, ◌≢◌, ◌∙◌, refl, sym, ap, true, false, List, [], ◌∷◌, none, some,
  All, Bool-cases, inl, inr, ltb, nat_beq, nat_beq_iff, arith, if◌then◌else◌,
}
use matrix_meshtastic.Prelude.Bits.{bit_or-disjoint}
use matrix_meshtastic.External.{MeshPacket, PacketCache, Libraries}
use matrix_meshtastic.Mesh.Events.{NetworkMeshPacket}
use matrix_meshtastic.Mesh.World.{World, MeshtasticClient, settings}
use matrix_meshtastic.Mesh.Incoming.{
  cache_key, is_duplicate_packet, cache_packet, handle_new_packet, handle_mesh_packet, process_read,
  Attempt, read_data, get_decoded,
}
use matrix_meshtastic.Mesh.Incoming.Process.Frame.{settings-process_message}

-- A key that is set at a time is found until its time to live has passed; others are as before.
abbrev pub Expires : ℕ → (PacketCache → ℕ → ℕ → PacketCache) → Type 0
Expires ttl set =
    (cache : PacketCache) (key at other now : ℕ)
    → set cache key at other now
      ≡ (if nat_beq key other then ltb now (at + ttl) else cache other now)

-- Two packets with 32-bit IDs and senders share a key only if both are the same.
pub cache_key_injective :
    (p q : MeshPacket)
    → p.id < 2 ^ 32
    → q.id < 2 ^ 32
    → cache_key p ≡ cache_key q
    → (p.id ≡ q.id) × (p.from ≡ q.from)
unfolding cache_key
cache_key_injective p q hp hq h =
    let e : p.id + p.from * 2 ^ 32 ≡ q.id + q.from * 2 ^ 32 =
      sym (bit_or-disjoint 32 p.id p.from hp) ∙ h ∙ bit_or-disjoint 32 q.id q.from hq in
    (omega (arith, e), omega (arith, e))

module _ (lib : Libraries) where
  settings-process_read :
      (a : Attempt) (w : World) → settings (process_read lib a w).1.client ≡ settings w.client
  unfolding process_read
  settings-process_read (packet, (d, some e)) w = refl
  settings-process_read (packet, (d, none)) w = settings-process_message lib packet d w

  cache_after_new :
      (packet : NetworkMeshPacket) (w : World)
      → (handle_new_packet lib packet w).1.client.packet_cache
        ≡ lib.cache_set w.client.packet_cache (cache_key packet.mesh_packet) w.now
  unfolding handle_new_packet cache_packet
  cache_after_new packet w =
      let cached = (cache_packet lib packet w).1 in
      elim (Bool-cases (w.client.managed_node_func packet.from)) [
        | inl managed ↦ rw managed
        | inr other ↦ rw other (
            ap (λ (c : MeshtasticClient). c.packet_cache)
              (settings-process_read
                (read_data lib cached.client packet (get_decoded packet.payload_variant)) cached))
      ]

  cache_after :
      (packet : NetworkMeshPacket) (w : World)
      → (handle_mesh_packet lib packet w).1.client.packet_cache ≡ (
          if is_duplicate_packet w.client packet.mesh_packet w.now
          then w.client.packet_cache
          else lib.cache_set w.client.packet_cache (cache_key packet.mesh_packet) w.now)
  unfolding handle_mesh_packet
  cache_after packet w = elim (Bool-cases (is_duplicate_packet w.client packet.mesh_packet w.now)) [
    | inl again ↦ rw again
    | inr first ↦ rw first (cache_after_new packet w)
  ]

  -- What packets, each at its time, make of the world.
  pub arrivals : List (NetworkMeshPacket × ℕ) → World → World
  arrivals [] w = w
  arrivals ((packet, at) ∷ ps) w =
      arrivals ps (handle_mesh_packet lib packet (record w { now = at })).1

  -- The key is found at every time before `until`.
  abbrev Holds : ℕ → ℕ → World → Type 0
  Holds key until w = (now : ℕ) → now < until → w.client.packet_cache key now ≡ true

  module _ (ttl : ℕ) (expires : Expires ttl lib.cache_set) where
    handling-Holds :
        (packet : NetworkMeshPacket) (key since : ℕ) (w : World)
        → since ≤ w.now
        → Holds key (since + ttl) w
        → Holds key (since + ttl) (handle_mesh_packet lib packet w).1
    handling-Holds packet key since w later h now early = rw (cache_after packet w) (
        ground (
          arith,
          expires w.client.packet_cache (cache_key packet.mesh_packet) w.now key now,
          h now early,
        ))

    arrivals-Holds :
        (ps : List (NetworkMeshPacket × ℕ)) (key since : ℕ) (w : World)
        → All (λ a. since ≤ a.1) ps
        → Holds key (since + ttl) w
        → Holds key (since + ttl) (arrivals ps w)
    unfolding arrivals
    arrivals-Holds [] key since w later h = h
    arrivals-Holds ((packet, at) ∷ ps) key since w later h =
        arrivals-Holds ps key since _ later.1
          (handling-Holds packet key since (record w { now = at }) later.0 h)

    first-Holds :
        (packet : NetworkMeshPacket) (w : World)
        → is_duplicate_packet w.client packet.mesh_packet w.now ≡ false
        → Holds (cache_key packet.mesh_packet) (w.now + ttl) (handle_mesh_packet lib packet w).1
    first-Holds packet w first now early =
        let key = cache_key packet.mesh_packet in
        rw (cache_after packet w, first, expires w.client.packet_cache key w.now key now)
          (ground (arith, nat_beq_iff key key))

    -- Once a packet with an ID is handled that was no duplicate, a packet with the same ID and sender
    -- that arrives within the time to live does nothing at all, whatever packets came in between, none
    -- of them earlier than the first, if the cache holds a key for its time to live.
    pub replay_is_dropped :
        (p q : NetworkMeshPacket) (w : World) (ps : List (NetworkMeshPacket × ℕ)) (now : ℕ)
        → is_duplicate_packet w.client p.mesh_packet w.now ≡ false
        → All (λ a. w.now ≤ a.1) ps
        → now < w.now + ttl
        → q.id ≢ 0
        → q.id ≡ p.id
        → q.from ≡ p.from
        → let later = record (arrivals ps (handle_mesh_packet lib p w).1) { now = now } in
          handle_mesh_packet lib q later ≡ (tt, later)
    unfolding handle_mesh_packet is_duplicate_packet cache_key
    replay_is_dropped p q w ps now first after early real same_id same_from =
        let later = record (arrivals ps (handle_mesh_packet lib p w).1) { now = now } in
        let held : later.client.packet_cache (cache_key p.mesh_packet) now ≡ true =
          arrivals-Holds ps (cache_key p.mesh_packet) w.now _ after (first-Holds p w first) now
            early in
        let found : later.client.packet_cache (cache_key q.mesh_packet) now ≡ true =
          rw (same_id, same_from) held in
        elim (Bool-cases (nat_beq q.id 0)) [
          | inl null ↦ absurd (real ((nat_beq_iff q.id 0).0 null))
          | inr numbered ↦ rw (numbered, found)
        ]
