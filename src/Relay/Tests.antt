-- ===== src/Relay/Tests.antt =====
-- Two nodes and a channel on a relay, and the theorems at this state.
use enxame.Base.Text.{◌==◌}
use enxame.Base.{
  ℕ, String, len, ◌≡◌, refl, true, false, List, [], ◌∷◌, ◌++◌, none, some, arith, eq_iff, Bool, ◌≤◌,
  ◌&&◌, ltb, if◌then◌else◌, Bool-cases, inl, inr,
}
use enxame.Base.Dict.{lookup, insert, delete}
use enxame.Base.Exec.{ok}
use enxame.Relay.Types.{Envelope, Session, SessionManager, new_session_manager}
use enxame.Relay.Sessions.{
  Clock, get_session, new_session, generate_session_id, register_session, unregister_session,
  add_to_blacklist,
}
use enxame.Relay.Forward.{
  subscribe_to_channel, broadcast_envelope, forward_envelope, try_send, deliver, deliver_all,
}
use enxame.Relay.Server.{
  NodeCommand, Json, command_to_envelope, command, end_of_file, stream_messages, cancelled,
  received, write_loop,
}
use enxame.Relay.Invariant.{IsSound}
use enxame.Relay.History.{step, run, Call, registers, subscribes, bans, forwards, run-new-IsSound}
use enxame.Relay.Delivery.{inbox, broadcast_lem}
use enxame.Relay.Routing.{forward_direct}
use enxame.Relay.Lifecycle.{ban_lem}
use enxame.Relay.Stream.{is_from, stream_messages-filter_by}
use enxame.Relay.Writer.{commands_sent, writes, rounds_lem, stream_ends}

abbrev clock : Clock
clock = record { now = 5; stamp = "20260102030405"; nanos = 1 ∷ 2 ∷ 3 ∷ 4 ∷ 5 ∷ 6 ∷ 7 ∷ 31 ∷ [] }

abbrev alice : String
alice = "a11ce0a11ce0"

abbrev bob : String
bob = "b0b0b0b0b0b0"

abbrev note : String → String → Envelope
note sender target = record {
  message_id = "m1";
  sender_node_id = sender;
  target_node_id = target;
  encrypted_payload = 1 ∷ 2 ∷ [];
  nonce = [];
  sender_signature = [];
  timestamp = 7;
  message_type = 1;
}

abbrev calls : List Call
calls =
    registers clock alice []
    ∷ registers clock bob []
    ∷ subscribes alice "#go"
    ∷ subscribes bob "#go"
    ∷ forwards 6 (note alice "#go")
    ∷ []

abbrev busy : SessionManager
busy = run new_session_manager calls

model : Unit {0}
unfolding run step new_session_manager register_session unregister_session add_to_blacklist
    subscribe_to_channel forward_envelope broadcast_envelope deliver_all deliver get_session
    try_send lookup insert delete
model = tt

session_id : generate_session_id clock ≡ "202601020304051234567f"
unfolding generate_session_id
session_id = refl

channel_test : (inbox busy bob ≡ note alice "#go" ∷ []) × (inbox busy alice ≡ [])
unfolding model
channel_test = (refl, refl)

-- A JSON that knows the messages of one conversation.
abbrev letter : ℕ → List ℕ → Envelope
letter t payload = record {
  message_id = "m1";
  sender_node_id = alice;
  target_node_id = bob;
  encrypted_payload = payload;
  nonce = [];
  sender_signature = [];
  timestamp = t;
  message_type = 1;
}

abbrev is_empty : List ℕ → Bool
is_empty [] = true
is_empty (x ∷ xs) = false

abbrev is_letter : Envelope → Bool
is_letter e =
    (((((e.message_id == "m1") && (e.sender_node_id == alice)) && (e.target_node_id == bob))
        && is_empty e.nonce)
      && is_empty e.sender_signature)
    && (ltb e.message_type 2 && ltb 0 e.message_type)

abbrev json : Json
json = record {
  marshal = λ e. if is_letter e then some (e.timestamp ∷ e.encrypted_payload) else none;
  unmarshal = λ bytes. elim bytes [ [] ↦ none | t ∷ payload ↦ some (letter t payload) ];
  unmarshal_command = λ bytes. some (record { command = "subscribe"; channel = "#go" });
}

envelope : String → String → String → List ℕ → List ℕ → List ℕ → ℕ → ℕ → Envelope
envelope i a b p n s t k = record {
  message_id = i;
  sender_node_id = a;
  target_node_id = b;
  encrypted_payload = p;
  nonce = n;
  sender_signature = s;
  timestamp = t;
  message_type = k;
}

from_fields :
    (i a b : String) (p n s : List ℕ) (t k : ℕ)
    → is_letter (envelope i a b p n s t k) ≡ true
    → envelope i a b p n s t k ≡ letter t p
unfolding envelope
from_fields i a b p [] [] t k h = ground (arith, eq_iff i "m1", eq_iff a alice, eq_iff b bob)
from_fields i a b p [] (x ∷ xs) t k h = ground arith
from_fields i a b p (x ∷ xs) s t k h = ground arith

from_letter : (e : Envelope) → is_letter e ≡ true → e ≡ letter e.timestamp e.encrypted_payload
unfolding envelope
from_letter e =
    from_fields e.message_id e.sender_node_id e.target_node_id e.encrypted_payload e.nonce
      e.sender_signature e.timestamp e.message_type

json_laws :
    (e : Envelope) (bytes : List ℕ) → json.marshal e ≡ some bytes → json.unmarshal bytes ≡ some e
json_laws e bytes h = elim (Bool-cases (is_letter e)) [
  | inl is ↦ ground (arith, is, from_letter e is)
  | inr not' ↦ ground (arith, not')
]

abbrev wrapped : NodeCommand
wrapped = record { command_id = "m1"; command_type = "envelope"; payload = 7 ∷ 1 ∷ [] }

abbrev ping : NodeCommand
ping = record { command_id = "m2"; command_type = "ping"; payload = [] }

busy-IsSound : IsSound busy
busy-IsSound = run-new-IsSound calls (tt, (tt, (tt, (tt, (tt, tt)))))

run-new-IsSound_example : IsSound (run new_session_manager (bans 3 alice ∷ calls))
unfolding model
run-new-IsSound_example =
    run-new-IsSound (bans 3 alice ∷ calls) (omega arith, (tt, (tt, (tt, (tt, (tt, tt))))))

broadcast_lem_example : (broadcast_envelope 8 (note bob "#go") busy).0 ≡ ok tt
broadcast_lem_example = (broadcast_lem 8 (note bob "#go") busy busy-IsSound).0

abbrev banned : SessionManager
banned = run busy (bans 9 alice ∷ [])

forward_direct_example : (forward_envelope 10 (note alice bob) busy).1.messages_relayed ≡ 2
unfolding model
forward_direct_example =
    (forward_direct 10 (note alice bob) busy busy-IsSound refl refl (omega arith) (omega arith)).1

id_long : 8 ≤ len (generate_session_id clock)
unfolding generate_session_id
id_long = omega arith

ban_lem_example : (add_to_blacklist 9 alice busy).0 ≡ ok tt
ban_lem_example = (ban_lem 9 alice bob busy busy-IsSound (omega arith)).0

-- The same bytes on a stream that bob began, where they name another sender.
abbrev from_bob : NodeCommand
from_bob = record { command_id = "m1"; command_type = "envelope"; payload = [] }

abbrev of_bob : Json
of_bob = record json {
  unmarshal = λ bytes. elim bytes [
    | [] ↦ some (record (letter 7 []) { sender_node_id = bob })
    | t ∷ payload ↦ some (letter t payload)
  ];
}

stream_messages-filter_by_example :
    stream_messages of_bob clock from_bob (command 8 wrapped ∷ end_of_file ∷ []) busy
    ≡ stream_messages of_bob clock from_bob (end_of_file ∷ []) busy
unfolding is_from command_to_envelope
stream_messages-filter_by_example =
    stream_messages-filter_by of_bob clock from_bob (record (letter 7 []) { sender_node_id = bob })
      (command 8 wrapped ∷ end_of_file ∷ []) busy refl

abbrev bob_session : Session
bob_session = record (new_session clock bob []) {
  last_activity = 6;
  send_chan = record { buffer = note alice "#go" ∷ []; closed = false };
}

rounds_lem_example :
    (rest : List NodeCommand) × (commands_sent (writes json (note alice "#go" ∷ []))
      ≡ commands_sent (write_loop json 1 (received false ∷ cancelled ∷ []) busy) ++ rest)
unfolding model
rounds_lem_example = (rounds_lem json 1 (received false ∷ cancelled ∷ []) busy bob_session refl).0

stream_ends_example :
    lookup alice
      (stream_messages json clock wrapped (command 8 wrapped ∷ end_of_file ∷ []) busy).1.sessions
    ≡ none
unfolding model command_to_envelope
stream_ends_example =
    stream_ends json clock wrapped (letter 7 (1 ∷ [])) (command 8 wrapped ∷ end_of_file ∷ []) busy
      refl (λ e. ground (arith, e, eq_iff alice "")) busy-IsSound refl (omega arith) id_long
