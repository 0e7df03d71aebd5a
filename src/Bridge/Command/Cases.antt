-- ===== src/Bridge/Command/Cases.antt =====
-- The branches of `fnTraceroute` (pkg/connector/commands.go).
use matrix_meshtastic.Prelude.{
  ℕ, ◌≡◌, ◌≢◌, ◌⊎◌, inl, inr, refl, ap, Bool, true, false, List, [], ◌∷◌, Option, none, some, Bytes,
  Error, Result, ok, err, Bool-cases, nat_beq,
}
use matrix_meshtastic.External.{Libraries}
use matrix_meshtastic.MeshId.Ids.{NodeId, IdError, mxid_to_node_id}
use matrix_meshtastic.MeshId.Channel.{ChannelDef, channel_def_from_portal_id}
use matrix_meshtastic.Mesh.World.{World}
use matrix_meshtastic.Bridge.Tracker.{TracerouteRequest, can_send_traceroute, add_request}
use matrix_meshtastic.Bridge.Command.{
  Command, Reply, request_sent, Desk, target_of, track, send_on, unless_too_soon, trace_to,
  from_portal, primary_or_reply, with_args, channel_for,
}

-- A traceroute was sent and tracked at the time of the command, when it was allowed.
pub record Tracked (c : Command) (d : Desk) (r : Reply × Desk) : Type 0 where
  pub request : TracerouteRequest
  pub allowed :
      (can_send_traceroute request.from_node request.target_node d.world.now d.tracker).0 ≡ true
  pub at_once : request.timestamp ≡ d.world.now
  pub by_user : request.from_node ≡ mxid_to_node_id c.user_mxid
  pub added : r.1.tracker ≡ add_request request d.tracker
  pub says : r.0 ≡ request_sent request.target_node

abbrev pub Untracked : Desk → Reply × Desk → Type 0
Untracked d r = (r.1.tracker ≡ d.tracker) × ((n : NodeId) → r.0 ≢ request_sent n)

module _ (lib : Libraries) (parse_ghost : Bytes → Option Bytes) where
  track_cases :
      (c : Command) (target : NodeId) (channel : ChannelDef) (d : Desk)
      (r : (ℕ × Option Error) × World)
      → (can_send_traceroute (mxid_to_node_id c.user_mxid) target d.world.now d.tracker).0 ≡ true
      → let out =
          track lib parse_ghost c.room_id (mxid_to_node_id c.user_mxid) target channel d r in
        Untracked d out ⊎ Tracked c d out
  track_cases c target channel d ((id, some e), w) allowed = inl (refl, λ n e. cc)
  track_cases c target channel d ((id, none), w) allowed = inr (record {
    request = _;
    allowed = allowed;
    at_once = refl;
    by_user = refl;
    added = refl;
    says = refl;
  })

  send_on_cases :
      (c : Command) (target : NodeId) (channel : ChannelDef ⊎ Reply) (d : Desk)
      → ((reply : Reply) → channel ≡ inr reply → (n : NodeId) → reply ≢ request_sent n)
      → (can_send_traceroute (mxid_to_node_id c.user_mxid) target d.world.now d.tracker).0 ≡ true
      → let out =
          send_on lib parse_ghost c.room_id (mxid_to_node_id c.user_mxid) target channel d in
        Untracked d out ⊎ Tracked c d out
  send_on_cases c target (inl channel) d quiet allowed = track_cases c target channel d _ allowed
  send_on_cases c target (inr reply) d quiet allowed = inl (refl, quiet reply refl)

  portal_quiet :
      (made : Result ChannelDef ⊎ IdError) (reply : Reply)
      → from_portal lib parse_ghost made ≡ inr reply
      → (n : NodeId) → reply ≢ request_sent n
  portal_quiet (inl (ok channel)) reply e n f = cc
  portal_quiet (inl (err x)) reply e n f = cc
  portal_quiet (inr x) reply e n f = cc

  primary_quiet :
      (primary : Option ChannelDef) (reply : Reply)
      → primary_or_reply lib parse_ghost primary ≡ inr reply
      → (n : NodeId) → reply ≢ request_sent n
  primary_quiet none reply e n f = cc
  primary_quiet (some channel) reply e n f = cc

  channel_quiet :
      (portal : Option Bytes) (w : World) (reply : Reply)
      → channel_for lib parse_ghost portal w ≡ inr reply
      → (n : NodeId) → reply ≢ request_sent n
  channel_quiet none w reply e = primary_quiet w.client.primary_channel reply e
  channel_quiet (some portal_id) w reply e =
      portal_quiet (channel_def_from_portal_id lib.radio portal_id) reply e

  too_soon_cases :
      (c : Command) (target : NodeId) (d : Desk) (b : Bool × ℕ)
      → can_send_traceroute (mxid_to_node_id c.user_mxid) target d.world.now d.tracker ≡ b
      → let out = unless_too_soon lib parse_ghost c (mxid_to_node_id c.user_mxid) target b d in
        Untracked d out ⊎ Tracked c d out
  too_soon_cases c target d (false, wait) e = inl (refl, λ n f. cc)
  too_soon_cases c target d (true, wait) e =
      send_on_cases c target (channel_for lib parse_ghost c.portal_id d.world) d
        (channel_quiet c.portal_id d.world) (ap (λ p. p.0) e)

  trace_cases :
      (c : Command) (target : Option NodeId) (d : Desk)
      → let out = trace_to lib parse_ghost c target d in Untracked d out ⊎ Tracked c d out
  trace_cases c none d = inl (refl, λ n f. cc)
  trace_cases c (some target) d = elim (Bool-cases (nat_beq target 0)) [
    | inl null ↦ rw null (inl (refl, λ n f. cc))
    | inr real ↦ rw real (too_soon_cases c target d _ refl)
  ]

  -- A command that is answered with "sent" has tracked one request, which the rate limit allowed; any
  -- other answer leaves the tracker as it was.
  pub fn_traceroute_cases :
      (c : Command) (args : List Bytes) (d : Desk)
      → let out = with_args lib parse_ghost c args d in Untracked d out ⊎ Tracked c d out
  fn_traceroute_cases c [] d = inl (refl, λ n f. cc)
  fn_traceroute_cases c (arg ∷ args) d = trace_cases c (target_of lib parse_ghost arg) d
