-- ===== src/Lib.antt =====
-- The publisher and the subscriber of a LiveKit room whose traffic goes through an OpenZiti overlay.
--
-- publisher/main.go and subscriber/main.go are the programs. Both first call InitCon of lib/openziti,
-- which makes the context, the transport and the dialers that all connections use; then they call
-- the room service, join a room of the server through the signal client of lib/livekit-server-sdk
-- and the websockets of lib/websocket, and send a video track or open a file for one. The
-- WebRTC stack gets its packet connections from lib/pion-transport/stdnet, which dials them through
-- the same contexts. lib/openziti also enrolls identities, opens and keeps alive
-- an API session, and manages identities at the controller; the two programs do not call that.
--
-- Outcome: Go's functions as actions on a state: a value, an error or a panic, and the state that
--   was reached. `attempt` is `v, err := f()`, `finally` a deferred call.
-- Text: the functions of `strings` that the programs use; case folding is that of the characters
--   which fold to ASCII letters.
-- Openziti.Platform, Openziti.Disk: the world of lib/openziti: its variables, the disk with the faults
--   that it may give and what a failed write leaves, the requests sent and the count of open bodies. The controller, the ziti
--   SDK, JSON and the network are fields of `Platform`.
-- Openziti.Identity, Openziti.Enroll, Openziti.Auth, Openziti.Setup: identity.go, enroll.go, auth.go and
--   setup.go of lib/openziti, a function for each of theirs. KeepAlive runs for a number of
--   ticks, which is any; it has no other end than an error.
-- Livekit: what the programs call of the server SDK, with a list of the calls that succeeded, each
--   recorded with what it was given, beside the state that they make of the server; their calls of the room service are those of RoomService, the rest are fields of `Livekit`.
--   Livekit.Rounds is the loop of their main functions, for any number of rounds.
-- RoomService: the room service's client, lib/livekit-server-sdk/roomclient.go and auth.go, over the
--   Protobuf client of lib/livekit-protocol/livekit/livekit_room.twirp.go and the functions that the
--   Twirp clients share, which stand in livekit_agent_dispatch.twirp.go: doProtobufRequest goes
--   through lib/openziti's client. twirp's errors, JSON and signatures are fields of `Twirp`.
-- Publisher.Triangle: drawRedTriangle on images of any size; float64 is the parameter `Float`, so the
--   edges of the triangle are the results of its operations.
-- Publisher.Frames: trackOnBind's loop, for any number of ticks.
-- Publisher.Session, Subscriber.Session: `run` of the two programs, until the signal that ends them.
-- Subscriber.TrackWriter: NewTrackWriter, onTrackSubscribed and the goroutine of a track, over the
--   list of what the track gives.
-- Stdnet: lib/pion-transport/stdnet/net.go; `allcons` and its goroutines are part
--   of the state, and ListenPacket appends to it in one step: the race of two calls is not modelled.
-- SignalClient.Types, SignalClient.Reader, SignalClient.Connect, SignalClient.Requests:
--   lib/livekit-server-sdk/signalclient.go. A reader's channel is a number; Close takes the
--   responses that the reader still handles from the connection; the reader runs for any number
--   of rounds, and as many as there are responses, and one, are enough for it to return once its
--   connection fails. There Close is one step, and a reader that has begun to end has ended.
-- SignalClient.Protocol: the conversions of utils.go; the description types of WebRTC are a parameter.
-- SignalClient.Interleaving: connect's Close and store, and the end of the old connection's reader, as
--   atomic steps that are taken in any order; a read of the reader is one step.
-- SignalClient.Overlay: the signal client with the dial of the websocket library.
-- Websocket: lib/websocket/client.go and ziti.go, which make a websocket over lib/openziti's transport.
--   Url is hostPortNoPort, Dialers the dial functions and the closing of a connection, Dial.Headers and
--   Dial the request and DialContext, Upgrade the handshake on a connection. The rest of the
--   package is the parameter `Wire`.
-- Ice: the gathering of candidates of lib/pion-ice, gather.go, whose relay candidates over UDP listen at
--   their TURN server's address, with what it uses of agent.go and candidate_relay.go. Ice.Relay is the
--   adding and closing of candidates, Ice.Gather the rest; the net is that of Stdnet. The goroutines of
--   the URLs run one after another, in their order. TURN, TLS and DTLS are fields of `Libs`. Ice.Policy is
--   how a relay policy chooses what is gathered, in lib/pion-webrtc/icegatherer.go.
-- Examples: concrete surroundings, and runs in them.
--
-- Not modelled: log lines, the sleeps of the two main functions, timeouts and cancelled dials, the frames
-- of websockets, Twirp's servers, hooks and interceptors, the gathering of candidates that are
-- not relayed, and the other libraries under lib/, which are copies of other projects; what is
-- called of them is a parameter. Goroutines are interleaved only where connect closes a
-- reader's connection.
mod Prelude
pub mod Outcome
pub mod Text
pub mod Examples
pub mod Livekit
pub mod Openziti
pub mod Publisher
pub mod SignalClient
pub mod Ice
pub mod Stdnet
pub mod Subscriber
pub mod RoomService
pub mod Websocket
