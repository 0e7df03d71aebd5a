-- ===== src/Mesh/Send/Delivery.antt =====
-- What a call of `sendBytes` does: it fails and sends nothing, or every connector is given one and
-- the same packet, within the limits of the mesh.
use matrix_meshtastic.Prelude.{
  ℕ, ◌+◌, ◌-◌, ◌%◌, ◌/◌, ◌^◌, ◌≤◌, ◌≡◌, refl, sym, ap, ◌∙◌, ◌⊎◌, inl, inr, true, List, ◌++◌, map,
  Option, none, some, arith, Bytes, Error, Result, ok, err, Bool-cases, length, ltb,
}
use matrix_meshtastic.External.{Data, MeshPacket, Libraries, data_message}
use matrix_meshtastic.MeshId.Channel.{ChannelDef}
use matrix_meshtastic.Mesh.World.{second, MeshConnector, MeshtasticClient, Effect, sent, World}
use matrix_meshtastic.Mesh.Send.PacketId.{generate_packet_id_lem}
use matrix_meshtastic.Mesh.Send.{
  EncryptionType, no_encryption, psk_encryption, pki_encryption, other_encryption, PacketInfo,
  generate_packet_id, data_of, packet_of, Prepared, refused, ready, prepare, deliver,
  send_marshalled, send_admitted, send_bytes,
}

abbrev pub to_all : Bytes → MeshPacket → List MeshConnector → List Effect
to_all name pkt = map (λ (h : MeshConnector). sent h.ident name pkt)

-- The call failed, and nothing was sent.
abbrev pub Silent : World → (ℕ × Option Error) × World → Type 0
Silent w r = ((e : Error) × (r.0.1 ≡ some e)) × (r.1.effects ≡ w.effects)

pub record Transmission (lib : Libraries) (raw : Bytes) (info : PacketInfo) (w : World)
    (r : (ℕ × Option Error) × World) : Type 0 where
  pub name : Bytes
  pub packet : MeshPacket
  pub managed : w.client.managed_node_func info.from ≡ true
  pub fits : length raw ≤ lib.data_payload_len - 1
  pub sender : packet.from ≡ info.from
  pub receiver : packet.to ≡ info.to
  pub hops : packet.hop_limit ≡ w.client.hop_limit
  pub one_hop_more :
      (packet.hop_limit ≤ packet.hop_start) × (packet.hop_start ≤ packet.hop_limit + 1)
  pub returned : r.0.0 ≡ packet.id
  pub remembered : r.1.client.current_packet_id ≡ packet.id
  pub handed_over : r.1.effects ≡ w.effects ++ to_all name packet w.client.mesh_connectors

record SameHeader (p q : MeshPacket) : Type 0 where
  id : p.id ≡ q.id
  from : p.from ≡ q.from
  to : p.to ≡ q.to
  hop_limit : p.hop_limit ≡ q.hop_limit
  hop_start : p.hop_start ≡ q.hop_start

prepare_header :
    (lib : Libraries) (c : MeshtasticClient) (raw_data : Bytes) (d : Data) (pkt : MeshPacket)
    (info : PacketInfo) (key : Bytes) (encryption : EncryptionType) {q : MeshPacket}
    → prepare lib c raw_data d pkt info key encryption ≡ ready q
    → SameHeader q pkt
unfolding prepare
prepare_header lib c raw_data d pkt info key no_encryption h = ground arith
prepare_header lib c raw_data d pkt info key psk_encryption h = ground arith
prepare_header lib c raw_data d pkt info key pki_encryption h = ground arith
prepare_header lib c raw_data d pkt info key other_encryption h = cc

-- A packet was handed to every connector, with the header that the call asked for.
record Handed (info : PacketInfo) (id : ℕ) (w : World) (r : (ℕ × Option Error) × World)
    : Type 0 where
  name : Bytes
  packet : MeshPacket
  has_id : packet.id ≡ id
  sender : packet.from ≡ info.from
  receiver : packet.to ≡ info.to
  hops : packet.hop_limit ≡ w.client.hop_limit
  one_hop_more : (packet.hop_limit ≤ packet.hop_start) × (packet.hop_start ≤ packet.hop_limit + 1)
  returned : r.0.0 ≡ packet.id
  unchanged : r.1.client ≡ w.client
  handed_over : r.1.effects ≡ w.effects ++ to_all name packet w.client.mesh_connectors

Prepared-cases :
    (p : Prepared)
    → ((id : ℕ) × (e : Error) × (p ≡ refused id e)) ⊎ ((q : MeshPacket) × (p ≡ ready q))
Prepared-cases (refused id e) = inl (id, e, refl)
Prepared-cases (ready q) = inr (q, refl)

packet_of_hops :
    (c : MeshtasticClient) (t id h : ℕ) (info : PacketInfo) (d : Data)
    → let p = packet_of c t id h info d in
      (p.hop_limit ≤ p.hop_start) × (p.hop_start ≤ p.hop_limit + 1)
unfolding packet_of
packet_of_hops c t id h info d = ground arith

handed_hops :
    (q : MeshPacket) (c : MeshtasticClient) (info : PacketInfo) (t id h : ℕ) (d : Data)
    → SameHeader q (packet_of c t id h info d)
    → (q.hop_limit ≤ q.hop_start) × (q.hop_start ≤ q.hop_limit + 1)
handed_hops q c info t id h d same = omega (arith, packet_of_hops c t id h info d)

send_marshalled_cases :
    (lib : Libraries) (channel : Option ChannelDef) (d : Data) (info : PacketInfo) (id : ℕ)
    (bytes : Result Bytes) (w : World)
    → let r = send_marshalled lib channel d info id bytes w in Silent w r ⊎ Handed info id w r
unfolding send_marshalled deliver packet_of
send_marshalled_cases lib channel d info id (err e) w = inl ((e, refl), refl)
send_marshalled_cases lib none d info id (ok raw) w = inl ((_, refl), refl)
send_marshalled_cases lib (some channel) d info id (ok raw) w =
    let hash = (lib.radio.channel_hash channel.name channel.key_bytes).0 in
    let pkt = packet_of w.client (w.now / second % 2 ^ 32) id hash info d in
    let p = prepare lib w.client raw d pkt info channel.key_bytes info.encryption in
    elim (Prepared-cases p) [
      | inl (i, e, failed) ↦ rw failed (inl ((e, refl), refl))
      | inr (q, made) ↦
          let same =
            prepare_header lib w.client raw d pkt info channel.key_bytes info.encryption made in
          rw made (
            inr (record {
              name = channel.name;
              packet = q;
              has_id = same.id;
              sender = same.from;
              receiver = same.to;
              hops = same.hop_limit;
              one_hop_more = handed_hops q w.client info _ id hash d same;
              returned = refl;
              unchanged = refl;
              handed_over = refl;
            }))
    ]

admitted :
    (lib : Libraries) (channel : Option ChannelDef) (raw : Bytes) (info : PacketInfo) (w : World)
    → w.client.managed_node_func info.from ≡ true
    → length raw ≤ lib.data_payload_len - 1
    → (let (id, w') = generate_packet_id w in
        let d = data_of raw info in
        let r = send_marshalled lib channel d info id (lib.proto.marshal (data_message d)) w' in
        Silent w' r ⊎ Handed info id w' r)
    → let r = send_admitted lib channel info (data_of raw info) w in
      Silent w r ⊎ Transmission lib raw info w r
unfolding send_admitted
admitted lib channel raw info w managed fits (inl (failed, silent)) =
    inl (failed, silent ∙ (generate_packet_id_lem w).2)
admitted lib channel raw info w managed fits (inr h) =
    let (small, client, effects, now) = generate_packet_id_lem w in
    inr (record {
      name = h.name;
      packet = h.packet;
      managed = managed;
      fits = fits;
      sender = h.sender;
      receiver = h.receiver;
      hops = h.hops ∙ ap (λ c. c.hop_limit) client;
      one_hop_more = h.one_hop_more;
      returned = h.returned;
      remembered =
          ap (λ c. c.current_packet_id) h.unchanged
          ∙ ap (λ c. c.current_packet_id) client
          ∙ sym h.has_id;
      handed_over = cc (h.handed_over, effects, ap (λ c. c.mesh_connectors) client);
    })

-- A call of `sendBytes` either fails and sends nothing, or hands one packet to every connector: from
-- a managed node, with a payload within the limit, addressed as asked, with the hop limit of the
-- client and a hop start of at most one more, under the packet ID that is returned and remembered.
pub send_bytes_cases :
    (lib : Libraries) (channel : Option ChannelDef) (raw : Bytes) (info : PacketInfo) (w : World)
    → let r = send_bytes lib channel raw info w in Silent w r ⊎ Transmission lib raw info w r
unfolding send_bytes send_admitted
send_bytes_cases lib channel raw info w = elim (Bool-cases (w.client.managed_node_func info.from)) [
  | inr foreign ↦ rw foreign (inl ((_, refl), refl))
  | inl managed ↦ elim (Bool-cases (ltb (lib.data_payload_len - 1) (length raw))) [
    | inl large ↦ rw (managed, large) (inl ((_, refl), refl))
    | inr fits ↦
        rw (managed, fits)
          (admitted lib channel raw info w managed (ground arith)
            (send_marshalled_cases lib channel (data_of raw info) info _ _ _))
  ]
]
