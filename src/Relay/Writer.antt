-- ===== src/Relay/Writer.antt =====
-- The goroutine of StreamMessages that writes to the client, and the end of a stream.
use enxame.Base.{
  ℕ, zero, suc, ◌≤◌, String, len, ◌≡◌, ◌≢◌, refl, true, false, List, [], ◌∷◌, ◌++◌, map, none, some,
  arith, eq_iff, eq_refl, length, if◌then◌else◌, Option-cases, Bool-cases, inl, inr,
}
use enxame.Base.Text.{◌==◌}
use enxame.Base.Dict.{lookup, has, lookup-delete}
use enxame.Base.Exec.{panic}
use enxame.Relay.Types.{Envelope, Session, SessionManager}
use enxame.Relay.Sessions.{Clock, unregister_session, generate_session_id}
use enxame.Relay.Server.{
  NodeCommand, Json, decoded, command_to_envelope, Input, stream_of, stream_messages, Written,
  sends, loses, skips, waits, returns, crashes, Turn, cancelled, received, write_envelope,
  write_step, write_loop, envelope_to_command,
}
use enxame.Relay.Invariant.{IsSound}
use enxame.Relay.Lifecycle.{register_ok, unregister_lem}

unregister_removes :
    (n : String) (m : SessionManager) → lookup n (unregister_session n m).1.sessions ≡ none
unfolding unregister_session
unregister_removes n m = ground (arith, lookup-delete n n m.sessions, eq_refl n)

abbrev popped : Session → List Envelope → Session
popped s xs = record s { send_chan = record s.send_chan { buffer = xs } }

abbrev pub all_sent : ℕ → List Turn
all_sent zero = []
all_sent (suc k) = received true ∷ all_sent k

-- The commands that were sent.
abbrev pub commands_sent : List Written → List NodeCommand
commands_sent [] = []
commands_sent (sends cmd ∷ ws) = cmd ∷ commands_sent ws
commands_sent (loses cmd ∷ ws) = commands_sent ws
commands_sent (skips ∷ ws) = commands_sent ws
commands_sent (waits ∷ ws) = commands_sent ws
commands_sent (returns ∷ ws) = commands_sent ws
commands_sent (crashes ∷ ws) = commands_sent ws

module _ (json : Json) where
  -- What is written for an envelope where stream.Send succeeds: a command with its id and its encoding,
  -- or nothing where it cannot be encoded.
  abbrev written : Envelope → Written
  written e = elim (json.marshal e) [
    | none ↦ skips
    | some bytes ↦
        sends (record { command_id = e.message_id; command_type = "envelope"; payload = bytes })
  ]

  abbrev pub writes : List Envelope → List Written
  writes = map written

  loop_all_sent :
      (a : ℕ) (m : SessionManager) (s : Session) (b : List Envelope)
      → m.heap a ≡ some s
      → s.send_chan.buffer ≡ b
      → write_loop json a (all_sent (suc (length b))) m
        ≡ writes b ++ (if s.send_chan.closed then crashes else waits) ∷ []
  unfolding write_loop write_step write_envelope envelope_to_command
  loop_all_sent a m s [] at e = ground (arith, at, e)
  loop_all_sent a m s (x ∷ xs) at e = elim (Option-cases (json.marshal x)) [
    | inl bad ↦ ground (
      arith,
      at,
      e,
      bad,
      loop_all_sent a (write_step json a (received true) m).1 (popped s xs) xs,
    )
    | inr (bytes, good) ↦ ground (
      arith,
      at,
      e,
      good,
      loop_all_sent a (write_step json a (received true) m).1 (popped s xs) xs,
    )
  ]

  loop_prefix :
      (a : ℕ) (ts : List Turn) (m : SessionManager) (s : Session) (b : List Envelope)
      → m.heap a ≡ some s
      → s.send_chan.buffer ≡ b
      → (rest : List NodeCommand) × (commands_sent (writes b)
          ≡ commands_sent (write_loop json a ts m) ++ rest)
  unfolding write_loop write_step write_envelope envelope_to_command
  loop_prefix a [] m s b at e = (commands_sent (writes b), ground arith)
  loop_prefix a (cancelled ∷ ts) m s b at e = (commands_sent (writes b), ground arith)
  loop_prefix a (received sent ∷ ts) m s [] at e = elim (Bool-cases s.send_chan.closed) [
    | inl shut ↦ ([], ground (arith, at, e, shut))
    | inr unclosed ↦
        let later = loop_prefix a ts m s [] at e in
        (later.0, ground (arith, at, e, unclosed, later.1))
  ]
  loop_prefix a (received sent ∷ ts) m s (x ∷ xs) at e =
      let next = (write_step json a (received sent) m).1 in
      let later = loop_prefix a ts next (popped s xs) xs (ground (arith, at, e)) refl in
      elim (Option-cases (json.marshal x)) [
        | inl bad ↦ (later.0, ground (arith, at, e, bad, later.1))
        | inr (bytes, good) ↦ elim (Bool-cases sent) [
          | inl yes' ↦ (later.0, ground (arith, at, e, good, yes', later.1))
          | inr no' ↦ (commands_sent (writes (x ∷ xs)), ground (arith, at, e, good, no'))
        ]
      ]

  -- While nothing else acts on the session: however the rounds of the goroutine go, the commands that it
  -- has sent are the first of those for the envelopes of the buffer, in their order and each once. Where
  -- every round receives and sends, it writes all of them, and then waits if the channel is open, and
  -- crashes if it is closed.
  pub rounds_lem :
      (a : ℕ) (ts : List Turn) (m : SessionManager) (s : Session)
      → m.heap a ≡ some s
      → ((rest : List NodeCommand) × (commands_sent (writes s.send_chan.buffer)
            ≡ commands_sent (write_loop json a ts m) ++ rest))
        × (write_loop json a (all_sent (suc (length s.send_chan.buffer))) m
            ≡ writes s.send_chan.buffer ++ (if s.send_chan.closed then crashes else waits) ∷ [])
  rounds_lem a ts m s at = (
    loop_prefix a ts m s s.send_chan.buffer at refl,
    loop_all_sent a m s s.send_chan.buffer at refl,
  )

  -- In a sound state, when a node with an id of eight bytes or more is unregistered and no context has
  -- ended, the goroutine that writes for its session writes what was in the buffer and crashes.
  pub rounds-unregister :
      (n : String) (a : ℕ) (m : SessionManager) (s : Session)
      → IsSound m
      → 8 ≤ len n
      → lookup n m.sessions ≡ some a
      → m.heap a ≡ some s
      → write_loop json a (all_sent (suc (length s.send_chan.buffer))) (unregister_session n m).1
        ≡ writes s.send_chan.buffer ++ crashes ∷ []
  rounds-unregister n a m s v long found at =
      (rounds_lem a [] (unregister_session n m).1
        (record s { send_chan = record s.send_chan { closed = true } })
        (unregister_lem n m a s v long found at).2).1

  module _ (c : Clock) (first : NodeCommand) (env : Envelope) (inputs : List Input)
      (m : SessionManager) (e : command_to_envelope json first ≡ decoded env)
      (named : env.sender_node_id ≢ "") (v : IsSound m)
      (allowed : has env.sender_node_id m.blacklist ≡ false) (long : 8 ≤ len env.sender_node_id)
      (stamped : 8 ≤ len (generate_session_id c)) where
    -- In a sound state, a stream whose first message is of a node that is not banned, with ids of
    -- eight bytes or more, ends with no session of that node on the map, whatever came in between.
    pub stream_ends :
        lookup env.sender_node_id (stream_messages json c first inputs m).1.sessions ≡ none
    unfolding stream_messages stream_of
    stream_ends =
        let named' : (env.sender_node_id == "") ≡ false =
          ground (arith, eq_iff env.sender_node_id "") in
        let done = (register_ok c env.sender_node_id [] m v allowed long stamped).0 in
        rw (e, stream_messages) (rw named' (rw done (unregister_removes env.sender_node_id _)))

  -- A stream whose first command is of another type than envelope panics at once.
  pub stream_first_ignored :
      (c : Clock) (first : NodeCommand) (inputs : List Input) (m : SessionManager)
      → first.command_type ≢ "envelope"
      → stream_messages json c first inputs m ≡ (panic, m)
  unfolding stream_messages command_to_envelope
  stream_first_ignored c first inputs m h = ground (arith, eq_iff first.command_type "envelope")
