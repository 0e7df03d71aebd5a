-- ===== src/Lib.antt =====
-- A model of matrix-meshtastic, a bridge between Matrix and Meshtastic mesh networks, and theorems on
-- its client of the mesh and on the handlers between the mesh and Matrix.
--
-- The program. pkg/meshid holds identifiers and channel definitions. pkg/mesh holds the client of the
-- mesh: its connectors (pkg/mesh/connectors) hand it packets and report changes of their state, it
-- drops duplicates, decrypts a packet, answers requests and tells its event handlers; the bridge
-- (pkg/connector) sends through it. The client hands each outgoing packet to every connector.
--
-- What stands where.
--  Prelude: shared names, Boolean tests, lists and maps over native numbers, errors, bits.
--  Golang: what the source uses of Go's strings, strconv, base64, crc32 and UTF-8.
--  External: the protobuf messages, and the libraries as records of operations (Radio for
--    meshtastic-go/radio, Proto for protobuf, PacketCache for ttlcache, Host for gopsutil). They are
--    parameters; a theorem that needs a law of theirs has it as a hypothesis.
--  MeshId.Ids (ids.go), MeshId.Node (node.go), MeshId.Channel (channel_def.go), all of pkg/meshid.
--  Mesh.Events: pkg/mesh/events.go and pkg/mesh/connectors/connector.go.
--  Mesh.World: the struct MeshtasticClient of pkg/mesh/mesh_client.go as a record; its methods are
--    actions, functions from a world (client, clock, random numbers, effects) to a result and a world.
--    The effects are the calls of connectors and handlers, in order.
--  Mesh.Connection: Connect, Disconnect, IsConnected, handleConnectorStateChange, AddChannel,
--    AddChannelDef, SetHopLimit and SetPrimaryChannel of mesh_client.go.
--  Mesh.Send: generatePacketId, getPriority, sendBytes and sendProtoMessage of mesh_client.go.
--  Mesh.Outgoing, Mesh.Reports, Mesh.Precision: pkg/mesh/outgoing_messages.go.
--  Mesh.Traceroute: pkg/mesh/traceroute.go. Mesh.Requests: pkg/mesh/data_requests.go.
--  Mesh.Incoming with Content and Process: pkg/mesh/incoming_messages.go.
--  Mesh.Mqtt: pkg/mesh/connectors/mqtt_handler.go, with the broker's client as the record Broker.
--  Mesh.Udp: pkg/mesh/connectors/udp_handler.go as a step relation between its flags, with the place
--    where its goroutine stands; Run lists the events of a run of any length.
--  Bridge.Tracker: TracerouteTracker of pkg/connector/traceroute.go.
--  Bridge.Command: fnTraceroute of pkg/connector/commands.go, on a client and a tracker.
--  Bridge.Answer: the answer to a traceroute, traceroute.go.
--  Bridge.Database: pkg/connector/meshdb, its two tables as lists of rows.
--  Bridge.Hub: the struct MeshtasticConnector of pkg/connector/connector.go with the tables, the client
--    of the mesh and the history of calls of the bridge framework; a handler is a task, a function from
--    a hub to a result and a hub, where no result is a panic. The framework is the record Outside: its
--    answers are functions of that history.
--  Bridge.Managed: IsManagedNode of connector.go. Bridge.Keys: the keys of handle_matrix.go.
--  Bridge.Ghosts, Bridge.FromMesh: the connector's handlers of mesh events, handle_meshtastic.go.
--  Bridge.ToMatrix: a login's handlers of messages and reactions, handle_meshtastic.go and client.go.
--  Bridge.FromMatrix: Matrix messages and reactions, handle_matrix.go.
--  Bridge.Names: the names of users, handle_matrix.go and utils.go.
--  Bridge.Presence: membership, typing and receipts, handle_matrix.go.
--  Bridge.Chats: chatinfo.go and the questions of client.go on rooms and users.
--  Bridge.Logins: login.go, Connect of client.go, fnUpdateNames and fnNodeInfo of commands.go.
--  Bridge.Mentions: convertMessageEvent of handle_meshtastic.go, with the matches of the regular
--    expression and the links as the record Texts.
--  Bridge.Joining: joinChannel of handle_meshtastic.go and fnJoinChannel of commands.go.
--  Bridge.Start: Start of connector.go, with the functions that the client is given as parameters.
--  Bridge.Startup: ValidateConfig of config.go, and what connector.go does when the mesh is there or
--    gone. The contexts of its background tasks stand as numbers.
--  Bridge.Cleanup, Bridge.Periodic: pkg/connector/background_tasks.go.
--  MsgConv: pkg/msgconv, without the parser of HTML.
--  Tests: each theorem at concrete values.
--
-- Choices. Numbers are natural numbers; where the source wraps around or truncates, that is written
-- out. Text is a list of bytes. Times are nanoseconds, and the clock does not move during a call.
-- Coordinates are in units of 1e-7 degrees, signal strengths in quarters of a decibel, where the
-- source converts to floats. A parser returns its values beside its error, as in Go. Loops are
-- recursions on lists or numbers. Three have fuel: splitting a text takes as many cuts as it has bytes,
-- and each cut takes a byte away; so does cutting it into runes (Golang.Utf8); printing a decimal number has ten digits, enough for 32 bits, as the
-- round trips of Golang.Strconv.Laws show. Where the source calls a method of a nil channel, which is a
-- panic, sending returns the error nil_channel, and SetPrimaryChannel has no result. Logging is left
-- out. A lock is not modelled: each method runs as one step, which is what the locks of the source
-- ensure for the packet cache, the throttle and the tracker. fnTraceroute is one step too, although its
-- check and its record in the tracker are two locked calls: two commands that overlap are not modelled.
--
-- The tables. A statement first takes the engine's next outcome from a list, which may be any error;
-- then the constraints of upgrades/00-latest-schema.sql that both engines check decide. The lengths of
-- texts, which only Postgres checks, count as such outcomes. A query without a row is nil, as the nil
-- tests of its callers say. LIKE compares the case of letters, as in Postgres; in SQLite it does not,
-- which makes no difference to node IDs as the program writes them, in lower case. A goroutine that a handler starts is recorded and is a task of its own.
--
-- Not modelled: Init of the connector and what only describes it to the framework (the rest
-- of pkg/connector), tickers and delays of the background tasks, location text
-- (pkg/meshid/gpslocation.go), which rests on floats, and the main program.
pub mod Prelude
pub mod Golang
pub mod External
pub mod MeshId
pub mod Mesh
pub mod Tests
pub mod Bridge
pub mod MsgConv
