-- ===== src/Mesh/Send/PacketId.antt =====
-- Packet IDs: the lowest ten bits count the packets, so an ID comes back only after 1024 packets.
use matrix_meshtastic.Prelude.{ℕ, zero, suc, ◌+◌, ◌*◌, ◌%◌, ◌^◌, ◌<◌, ◌≡◌, ◌≢◌, refl, ap, arith}
use matrix_meshtastic.Prelude.Bits.{bit_or-disjoint}
use matrix_meshtastic.Mesh.World.{World}
use matrix_meshtastic.Mesh.Send.{next_packet_id, generate_packet_id}

-- The state after a number of packet IDs have been drawn.
unfoldable pub after_packets : ℕ → World → World
after_packets zero w = w
after_packets (suc k) w = (generate_packet_id (after_packets k w)).1

abbrev pub packet_id : World → ℕ
packet_id w = w.client.current_packet_id

next_packet_id_sum :
    (rolling r : ℕ)
    → next_packet_id rolling r ≡ (rolling + 1) % 2 ^ 32 % 2 ^ 10 + r % 2 ^ 22 * 2 ^ 10
unfolding next_packet_id
next_packet_id_sum rolling r =
    let e : r * 2 ^ 10 % 2 ^ 32 ≡ r % 2 ^ 22 * 2 ^ 10 = omega arith in
    rw e (bit_or-disjoint 10 ((rolling + 1) % 2 ^ 32 % 2 ^ 10) (r % 2 ^ 22) (omega arith))

-- A packet ID is a `uint32`, and its lowest ten bits are one more than those before it.
next_packet_id_lem :
    (rolling r : ℕ)
    → (next_packet_id rolling r < 2 ^ 32)
      × (next_packet_id rolling r % 2 ^ 10 ≡ (rolling + 1) % 2 ^ 10)
next_packet_id_lem rolling r = omega (arith, next_packet_id_sum rolling r)

generate_packet_id_step :
    (w : World)
    → packet_id w ≢ 0
    → packet_id (generate_packet_id w).1 % 2 ^ 10 ≡ (packet_id w + 1) % 2 ^ 10
unfolding generate_packet_id
generate_packet_id_step w n = ground (arith, next_packet_id_lem (packet_id w) (w.random w.drawn))

-- The ID that is returned is a `uint32`; it is remembered, and nothing else changes in the client.
pub generate_packet_id_lem :
    (w : World)
    → let (id, w') = generate_packet_id w in
      (id < 2 ^ 32)
      × (w'.client ≡ record w.client { current_packet_id = id })
      × (w'.effects ≡ w.effects)
      × (w'.now ≡ w.now)
unfolding generate_packet_id
generate_packet_id_lem w = ((next_packet_id_lem _ _).0, refl, ground arith, ground arith)

after_packets_low :
    (k : ℕ) (w : World)
    → ((j : ℕ) → j < k → packet_id (after_packets j w) ≢ 0)
    → packet_id (after_packets k w) % 2 ^ 10 ≡ (packet_id w + k) % 2 ^ 10
unfolding after_packets
after_packets_low zero w h = omega arith
after_packets_low (suc k) w h = omega (
  arith,
  generate_packet_id_step (after_packets k w) (h k (omega arith)),
  after_packets_low k w (λ j lt. h j (omega arith)),
)

-- Two of 1024 packets in a row never have the same ID, as long as no ID on the way is 0: after a 0
-- the count starts again from a random number.
pub packet_ids_distinct :
    (k : ℕ) (w : World)
    → 0 < k
    → k < 1024
    → ((j : ℕ) → j < k → packet_id (after_packets j w) ≢ 0)
    → packet_id (after_packets k w) ≢ packet_id w
packet_ids_distinct k w pos small h e =
    omega (arith, after_packets_low k w h, ap (λ n. n % 2 ^ 10) e)
