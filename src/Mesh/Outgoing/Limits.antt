-- ===== src/Mesh/Outgoing/Limits.antt =====
-- The guards of `SendNodeInfo` (pkg/mesh/outgoing_messages.go).
use matrix_meshtastic.Prelude.{
  ℕ, ◌≤◌, ◌≡◌, refl, sym, subst, Bool, false, List, Option, none, some, Option-cases, inl, inr,
  Bytes, Error, length, ltb, nat_eq, lookup, insert, lookup-insert, arith,
}
use matrix_meshtastic.External.{Libraries}
use matrix_meshtastic.MeshId.Ids.{NodeId}
use matrix_meshtastic.Mesh.World.{MeshtasticClient, World}
use matrix_meshtastic.Mesh.Send.Frame.{send_proto_message-OnlySends}
use matrix_meshtastic.Mesh.Outgoing.{sent_recently, remember_sent, send_user, send_node_info}

-- No send time of the cache lies in the future.
abbrev pub ArePast : ℕ → List (NodeId × ℕ) → Type 0
ArePast now cache = (node at : ℕ) → lookup node cache ≡ some at → at ≤ now

insert-ArePast :
    (now from : ℕ) (cache : List (NodeId × ℕ))
    → ArePast now cache
    → ArePast now (insert from now cache)
insert-ArePast now from cache past node at found =
    ground (arith, lookup-insert from node now cache, past node at)

module _ (lib : Libraries) where
  never_recent :
      (c : MeshtasticClient) (from now : ℕ)
      → ArePast now c.node_info_send_cache
      → sent_recently lib c from now ≡ false
  unfolding sent_recently
  never_recent c from now past = elim (Option-cases (lookup from c.node_info_send_cache)) [
    | inl missing ↦ rw (sent_recently, missing)
    | inr (at, found) ↦ rw (sent_recently, found) (ground (arith, past from at found))
  ]

  remember-ArePast :
      (from now : ℕ) (e : Option Error) (w : World)
      → ArePast now w.client.node_info_send_cache
      → ArePast now (remember_sent lib from now e w).1.client.node_info_send_cache
  unfolding remember_sent
  remember-ArePast from now (some e) w past = past
  remember-ArePast from now none w past = insert-ArePast now from w.client.node_info_send_cache past

  -- The guard against sending a node's information again too soon never holds a call back: while no
  -- cached send time lies in the future, which each call keeps, a call with names that fit sends.
  pub node_info_is_never_held_back :
      (from to : NodeId) (long_name short_name : Bytes) (want : Bool) (key : Bytes) (w : World)
      → ArePast w.now w.client.node_info_send_cache
      → length long_name ≤ 39
      → length short_name ≤ 4
      → (send_node_info lib from to long_name short_name want key w
          ≡ send_user lib from to long_name short_name want key w)
        × ArePast w.now
            (send_node_info lib from to long_name short_name want key
              w).1.client.node_info_send_cache
  unfolding send_node_info send_user
  node_info_is_never_held_back from to long_name short_name want key w past long short =
      let info_sent = send_user lib from to long_name short_name want key w in
      let l : ltb 39 (length long_name) ≡ false = ground arith in
      let s : ltb 4 (length short_name) ≡ false = ground arith in
      rw (never_recent w.client from w.now past, l, s)
        (
          refl,
          remember-ArePast from w.now _ _ (
              subst (λ (c : MeshtasticClient). ArePast w.now c.node_info_send_cache)
                (sym
                  (send_proto_message-OnlySends lib w.client.primary_channel _ _ w).same_settings)
                past),
        )
