-- ===== src/Relay/Server.antt =====
-- The gRPC methods of pkg/relay/server.go and the transport of pkg/relay/transport.go. JSON is Go's
-- encoding/json: it comes as a parameter.
use enxame.Base.{ℕ, String, Bool, true, false, List, [], ◌∷◌, Option, none, some, if◌then◌else◌}
use enxame.Base.Text.{◌==◌, has_prefix}
use enxame.Base.Dict.{has}
use enxame.Base.Exec.{Outcome, ok, err, panic, ◌>>=◌, ◌>>◌, pure, fail, abort, gets, modify, log_id}
use enxame.Relay.Types.{
  Envelope, Session, SessionManager, Error, sender_required, invalid_command, stream_failed,
}
use enxame.Relay.Sessions.{
  Clock, Relay, update, touch, register_session, unregister_session, get_session,
  get_connected_node_ids,
}
use enxame.Relay.Forward.{
  subscribe_to_channel, unsubscribe_from_channel, forward_envelope, node_id_at,
}

pub record NodeCommand : Type 0 where
  pub command_id : String
  pub command_type : String
  pub payload : List ℕ

pub record RelayCommand : Type 0 where
  pub command : String
  pub channel : String

-- json.Marshal and json.Unmarshal on the two types that the relay encodes; `none` is an error.
pub record Json : Type 0 where
  pub marshal : Envelope → Option (List ℕ)
  pub unmarshal : List ℕ → Option Envelope
  pub unmarshal_command : List ℕ → Option RelayCommand

abbrev pub command_type_envelope : String
command_type_envelope = "envelope"

-- What CommandToEnvelope returns: an envelope, nil without an error, or an error.
pub data Decoded : Type 0 where
  decoded : Envelope → Decoded
  ignored malformed : Decoded

module _ (json : Json) where
  -- The pointer may be nil: reading env.MessageId then panics (`none`); an encoding error is
  -- `some none`.
  unfoldable pub envelope_to_command : Option Envelope → Option (Option NodeCommand)
  envelope_to_command none = none
  envelope_to_command (some env) = some (elim (json.marshal env) [
    | none ↦ none
    | some bytes ↦ some (record {
      command_id = env.message_id;
      command_type = command_type_envelope;
      payload = bytes;
    })
  ])

  unfoldable pub command_to_envelope : NodeCommand → Decoded
  command_to_envelope cmd =
      if cmd.command_type == command_type_envelope
      then elim (json.unmarshal cmd.payload) [ none ↦ malformed | some env ↦ decoded env ]
      else ignored

-- ConnectToRelay: the ids that the response lists, or none where Success is false.
connect_response : Outcome Error ℕ → Relay (Option (List String))
connect_response (ok a) m = (ok (some (get_connected_node_ids m)), m)
connect_response (err e) m = (ok none, m)
connect_response panic m = (panic, m)

unfoldable pub connect_to_relay : Clock → String → List ℕ → Relay (Option (List String))
unfolding connect_response
connect_to_relay c node_id public_key m =
    if node_id == ""
    then (ok none, m)
    else let (o, t) = register_session c node_id public_key m in connect_response o t

-- IsNodeConnected: the time of the last activity, if the node has a session.
unfoldable pub is_node_connected : ℕ → String → Relay (Option ℕ)
is_node_connected now node_id m =
    (ok (if has node_id m.sessions then some now else none), (get_session now node_id m).1)

-- handleRelayCommand
unfoldable pub run_command : String → RelayCommand → Relay Unit
run_command node_id cmd =
    if cmd.command == "subscribe"
    then (if has_prefix cmd.channel "#" then subscribe_to_channel node_id cmd.channel else pure tt)
    else if cmd.command == "unsubscribe"
    then unsubscribe_from_channel node_id cmd.channel
    else log_id node_id

unfoldable pub handle_relay_command : Json → ℕ → Envelope → Relay Unit
unfolding run_command
handle_relay_command json a env = do
  node_id ← gets (node_id_at a)
  elim (json.unmarshal_command env.encrypted_payload) [
    | none ↦ log_id node_id
    | some cmd ↦ run_command node_id cmd
  ]

-- An error that the caller only logs.
abbrev pub logged : Outcome Error Unit → Outcome Error Unit
logged panic = panic
logged _ = ok tt

abbrev pub log_error : Relay Unit → Relay Unit
log_error m s = (logged (m s).0, (m s).1)

-- One message of the stream, after the first.
unfoldable pub receive_envelope : Json → ℕ → String → ℕ → Envelope → Relay Unit
receive_envelope json now node_id a env =
    if env.sender_node_id == node_id
    then (do
      modify (λ m. touch now (m.heap a) a m)
      if env.target_node_id == "RELAY"
          then handle_relay_command json a env
          else log_error (forward_envelope now env))
    else pure tt

unfoldable pub receive_command : Json → ℕ → String → ℕ → NodeCommand → Relay Unit
unfolding receive_envelope
receive_command json now node_id a cmd = elim (command_to_envelope json cmd) [
  | decoded env ↦ receive_envelope json now node_id a env
  | ignored ↦ pure tt
  | malformed ↦ pure tt
]

-- What stream.Recv returns, with the time.
pub data Input : Type 0 where
  command : ℕ → NodeCommand → Input
  end_of_file failure : Input

unfoldable pub receive_loop : Json → String → ℕ → List Input → Relay Unit
receive_loop json node_id a [] = pure tt
receive_loop json node_id a (command now cmd ∷ rest) = do
  receive_command json now node_id a cmd
  receive_loop json node_id a rest
receive_loop json node_id a (end_of_file ∷ rest) = pure tt
receive_loop json node_id a (failure ∷ rest) = fail stream_failed

-- defer: the call is made also when the body panics, and a panic of its own replaces the outcome.
abbrev pub unwound : Outcome Error Unit → Outcome Error Unit → Outcome Error Unit
unwound o panic = panic
unwound o _ = o

abbrev pub with_defer : Relay Unit → Relay Unit → Relay Unit
with_defer body deferred m = (unwound (body m).0 (deferred (body m).1).0, (deferred (body m).1).1)

unfoldable pub forward_first : ℕ → Envelope → Relay Unit
forward_first now env = elim env.encrypted_payload [
  | [] ↦ pure tt
  | x ∷ xs ↦ log_error (forward_envelope now env)
]

-- The stream of one node, from its first message to the end of its input.
unfoldable pub stream_body : Json → Clock → Envelope → ℕ → List Input → Relay Unit
unfolding forward_first
stream_body json c env a inputs = do
  log_id env.sender_node_id
  forward_first c.now env
  receive_loop json env.sender_node_id a inputs

unfoldable pub stream_of : Json → Clock → Envelope → List Input → Relay Unit
unfolding stream_body
stream_of json c env inputs = if env.sender_node_id == "" then fail sender_required else do
  a ← register_session c env.sender_node_id []
  with_defer (stream_body json c env a inputs) (unregister_session env.sender_node_id)

-- A first command of another type gives a nil envelope, whose field is then read.
unfoldable pub stream_messages : Json → Clock → NodeCommand → List Input → Relay Unit
unfolding stream_of
stream_messages json c first inputs = elim (command_to_envelope json first) [
  | decoded env ↦ stream_of json c env inputs
  | ignored ↦ abort
  | malformed ↦ fail invalid_command
]

-- The goroutine that writes to the client. A round of it takes the end of the context, or receives from
-- the channel, and stream.Send then succeeds or fails.
pub data Turn : Type 0 where
  cancelled : Turn
  received : Bool → Turn

-- What a round does: it returns when the context has ended and when it has not sent the command.
pub data Written : Type 0 where
  sends loses : NodeCommand → Written
  skips waits returns crashes : Written

-- Receiving from a channel that is closed and empty gives nil at once.
unfoldable pub next_envelope : Session → Option (Option Envelope × Session)
next_envelope s = elim s.send_chan.buffer [
  | e ∷ rest ↦ some (some e, record s { send_chan = record s.send_chan { buffer = rest } })
  | [] ↦ if s.send_chan.closed then some (none, s) else none
]

unfoldable pub write_envelope : Json → Bool → Option Envelope → Written
write_envelope json sent o = elim (envelope_to_command json o) [
  | none ↦ crashes
  | some none ↦ skips
  | some (some cmd) ↦ if sent then sends cmd else loses cmd
]

unfoldable pub write_next :
    Json → ℕ → Bool → Option Session → SessionManager → Written × SessionManager
unfolding next_envelope write_envelope
write_next json a sent none m = (crashes, m)
write_next json a sent (some s) m = elim (next_envelope s) [
  | none ↦ (waits, m)
  | some (o, s') ↦ (write_envelope json sent o, record m { heap = update m.heap a s' })
]

unfoldable pub write_step : Json → ℕ → Turn → SessionManager → Written × SessionManager
unfolding write_next
write_step json a cancelled m = (returns, m)
write_step json a (received sent) m = write_next json a sent (m.heap a) m

abbrev pub goes_on : Written → Bool
goes_on (sends cmd) = true
goes_on (loses cmd) = false
goes_on skips = true
goes_on waits = true
goes_on returns = false
goes_on crashes = false

-- The rounds until the goroutine ends, while nothing else acts on the session.
unfoldable pub write_loop : Json → ℕ → List Turn → SessionManager → List Written
write_loop json a [] m = []
write_loop json a (t ∷ ts) m =
    let done = write_step json a t m in
    let rest = write_loop json a ts done.1 in done.0 ∷ (if goes_on done.0 then rest else [])
