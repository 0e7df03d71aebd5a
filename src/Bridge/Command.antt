-- ===== src/Bridge/Command.antt =====
-- The command that starts a traceroute (`fnTraceroute` of pkg/connector/commands.go). What the bridge
-- framework says of a Matrix user ID is a parameter.
pub mod Cases
pub mod Spacing
use matrix_meshtastic.Prelude.{
  ℕ, ◌/◌, Bool, true, false, List, [], ◌∷◌, ◌⊎◌, inl, inr, Option, none, some, Bytes, Error, Result,
  ok, err, nat_beq, if◌then◌else◌,
}
use matrix_meshtastic.External.{Libraries}
use matrix_meshtastic.MeshId.Ids.{NodeId, IdError, mxid_to_node_id, parse_node_id, parse_user_id}
use matrix_meshtastic.MeshId.Channel.{ChannelDef, channel_def_from_portal_id}
use matrix_meshtastic.Mesh.World.{second, World}
use matrix_meshtastic.Mesh.Reports.{send_traceroute}
use matrix_meshtastic.Bridge.Tracker.{
  TracerouteRequest, TracerouteTracker, can_send_traceroute, add_request,
}

pub record Command : Type 0 where
  pub args : List Bytes
  pub user_mxid : Bytes
  pub portal_id : Option Bytes
  pub room_id : Bytes

pub data Reply : Type 0 where
  usage invalid_node no_channel_info no_channel_definition no_primary_channel : Reply
  please_wait : ℕ → Reply
  send_failed : Error → Reply
  request_sent : NodeId → Reply

-- The client of the mesh and the tracker.
pub record Desk : Type 0 where
  pub world : World
  pub tracker : TracerouteTracker

abbrev user_node : NodeId × Option IdError → Option NodeId
user_node (node, none) = some node
user_node (node, some e) = none

abbrev ghost_node : Option Bytes → Option NodeId
ghost_node none = none
ghost_node (some ghost_id) = user_node (parse_user_id ghost_id)

abbrev node_or_ghost : (Bytes → Option Bytes) → Bytes → NodeId × Option IdError → Option NodeId
node_or_ghost parse_ghost arg (node, none) = some node
node_or_ghost parse_ghost arg (node, some e) = ghost_node (parse_ghost arg)

module _ (lib : Libraries) (parse_ghost : Bytes → Option Bytes) where
  unfoldable pub target_of : Bytes → Option NodeId
  target_of arg = node_or_ghost parse_ghost arg (parse_node_id arg)

  abbrev from_portal : Result ChannelDef ⊎ IdError → ChannelDef ⊎ Reply
  from_portal (inl (ok channel)) = inl channel
  from_portal (inl (err e)) = inr no_channel_definition
  from_portal (inr e) = inr no_channel_info

  abbrev primary_or_reply : Option ChannelDef → ChannelDef ⊎ Reply
  primary_or_reply none = inr no_primary_channel
  primary_or_reply (some channel) = inl channel

  -- The lines on a portal are those of `ChannelDefFromPortalID`.
  abbrev channel_for : Option Bytes → World → ChannelDef ⊎ Reply
  channel_for none w = primary_or_reply w.client.primary_channel
  channel_for (some portal_id) w = from_portal (channel_def_from_portal_id lib.radio portal_id)

  abbrev track :
      Bytes → NodeId → NodeId → ChannelDef → Desk → (ℕ × Option Error) × World → Reply × Desk
  track room from target channel d ((packet_id, some e), w) =
      (send_failed e, record d { world = w })
  track room from target channel d ((packet_id, none), w) = (
    request_sent target,
    record {
      world = w;
      tracker =
          add_request
            (record {
              packet_id = packet_id;
              from_node = from;
              target_node = target;
              room_id = room;
              timestamp = d.world.now;
              channel = channel;
            })
            d.tracker;
    },
  )

  abbrev send_on : Bytes → NodeId → NodeId → ChannelDef ⊎ Reply → Desk → Reply × Desk
  send_on room from target (inr reply) d = (reply, d)
  send_on room from target (inl channel) d =
      track room from target channel d (send_traceroute lib from target (some channel) d.world)

  abbrev unless_too_soon : Command → NodeId → NodeId → Bool × ℕ → Desk → Reply × Desk
  unless_too_soon c from target (false, wait) d = (please_wait (wait / second), d)
  unless_too_soon c from target (true, wait) d =
      send_on c.room_id from target (channel_for c.portal_id d.world) d

  abbrev trace_to : Command → Option NodeId → Desk → Reply × Desk
  trace_to c none d = (invalid_node, d)
  trace_to c (some target) d =
      let from = mxid_to_node_id c.user_mxid in
      if nat_beq target 0
      then (invalid_node, d)
      else unless_too_soon c from target (can_send_traceroute from target d.world.now d.tracker) d

  abbrev pub with_args : Command → List Bytes → Desk → Reply × Desk
  with_args c [] d = (usage, d)
  with_args c (arg ∷ args) d = trace_to c (target_of arg) d

  unfoldable pub fn_traceroute : Command → Desk → Reply × Desk
  fn_traceroute c d = with_args c c.args d
