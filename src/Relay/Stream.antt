-- ===== src/Relay/Stream.antt =====
-- The streams of connected nodes: what a client can make the relay do, and what it is sent.
use enxame.Base.{
  ℕ, String, len, ◌≡◌, ◌≢◌, refl, List, [], ◌∷◌, some, arith, eq_iff, eq_refl, Option-cases, Bool,
  true, Bool-cases, inl, inr, ltb, false, filter_by, filter_by-true, filter_by-false, fun_ext, sym,
  ap, ◌∙◌, if◌then◌else◌,
}
use enxame.Base.Text.{◌==◌, has_prefix}
use enxame.Base.Exec.{ok, fail, carry-keeps, log_id, ◌>>=◌, ◌>>◌}
use enxame.Relay.Types.{Envelope, SessionManager, Error, sender_required}
use enxame.Relay.Sessions.{Clock, Relay, touch, register_session, unregister_session}
use enxame.Relay.Forward.{node_id_at}
use enxame.Relay.Server.{
  NodeCommand, Json, RelayCommand, Decoded, decoded, ignored, malformed, envelope_to_command,
  command_to_envelope, run_command, handle_relay_command, receive_envelope, receive_command, Input,
  command, end_of_file, failure, receive_loop, forward_first, stream_body, stream_of,
  stream_messages, with_defer,
}
use enxame.Relay.Invariant.{
  IsSound, register_session-IsSound, unregister_session-IsSound, subscribe_to_channel-IsSound,
  unsubscribe_from_channel-IsSound,
}
use enxame.Relay.History.{forward_envelope-IsSound}

-- Whether an input is the end of the stream, an error, or a command by the node of the stream.
unfoldable pub is_from : Json → String → Input → Bool
is_from json node_id (command now cmd) = elim (command_to_envelope json cmd) [
  | decoded env ↦ env.sender_node_id == node_id
  | ignored ↦ false
  | malformed ↦ false
]
is_from json node_id end_of_file = true
is_from json node_id failure = true

module _ (json : Json) where
  -- If json.Unmarshal inverts json.Marshal, an envelope that was made a command is read back from it.
  pub command_to_envelope-envelope_to_command :
      (env : Envelope) (cmd : NodeCommand)
      → ((e : Envelope) (bytes : List ℕ)
          → json.marshal e ≡ some bytes
          → json.unmarshal bytes ≡ some e)
      → envelope_to_command json (some env) ≡ some (some cmd)
      → command_to_envelope json cmd ≡ decoded env
  unfolding envelope_to_command command_to_envelope
  command_to_envelope-envelope_to_command env cmd laws h = elim (Option-cases (json.marshal env)) [
    | inl failed ↦ ground (arith, failed)
    | inr (bytes, e) ↦
        ground (arith, e, laws env bytes, eq_iff cmd.command_type "envelope", eq_refl "envelope")
  ]

  -- A message that names another sender than the stream's node has no effect.
  pub receive_spoofed :
      (now a : ℕ) (node_id : String) (cmd : NodeCommand) (env : Envelope) (m : SessionManager)
      → command_to_envelope json cmd ≡ decoded env
      → env.sender_node_id ≢ node_id
      → receive_command json now node_id a cmd m ≡ (ok tt, m)
  unfolding receive_command
  receive_spoofed now a node_id cmd env m e other =
      rw (e, receive_command) (ground (arith, eq_iff env.sender_node_id node_id))

  receive_command_foreign :
      (now a : ℕ) (node_id : String) (cmd : NodeCommand) (m : SessionManager)
      → is_from json node_id (command now cmd) ≡ false
      → receive_command json now node_id a cmd m ≡ (ok tt, m)
  unfolding is_from receive_command receive_envelope
  receive_command_foreign now a node_id cmd m h = by_command (command_to_envelope json cmd) refl
    where
      by_command :
          (d : Decoded)
          → command_to_envelope json cmd ≡ d
          → receive_command json now node_id a cmd m ≡ (ok tt, m)
      by_command (decoded env) e = rw (e, receive_command) (ground (arith, e, h))
      by_command ignored e = rw (e, receive_command) refl
      by_command malformed e = rw (e, receive_command) refl

  receive_loop-filter_by :
      (node_id : String) (a : ℕ) (inputs : List Input)
      → receive_loop json node_id a inputs
        ≡ receive_loop json node_id a (filter_by (is_from json node_id) inputs)
  unfolding receive_loop is_from
  receive_loop-filter_by node_id a [] = refl
  receive_loop-filter_by node_id a (command now cmd ∷ rest) =
      elim (Bool-cases (is_from json node_id (command now cmd))) [
        | inl own ↦
            ap (λ k. receive_command json now node_id a cmd >> k)
              (receive_loop-filter_by node_id a rest)
            ∙ ap (receive_loop json node_id a)
                (sym (filter_by-true (is_from json node_id) (command now cmd) rest own))
        | inr foreign ↦
            ap (λ k. k >> receive_loop json node_id a rest)
              (fun_ext (λ m. receive_command_foreign now a node_id cmd m foreign))
            ∙ receive_loop-filter_by node_id a rest
            ∙ ap (receive_loop json node_id a)
                (sym (filter_by-false (is_from json node_id) (command now cmd) rest foreign))
      ]
  receive_loop-filter_by node_id a (end_of_file ∷ rest) = refl
  receive_loop-filter_by node_id a (failure ∷ rest) = refl

  stream_of-filter_by :
      (c : Clock) (env : Envelope) (inputs : List Input) (m : SessionManager)
      → stream_of json c env inputs m
        ≡ stream_of json c env (filter_by (is_from json env.sender_node_id) inputs) m
  unfolding stream_of stream_body
  stream_of-filter_by c env inputs m =
      ap
        (λ (loop : ℕ → Relay Unit).
          (if env.sender_node_id == "" then fail sender_required else do
            a ← register_session c env.sender_node_id []
            with_defer (do log_id env.sender_node_id; forward_first c.now env; loop a)
                (unregister_session env.sender_node_id))
            m)
        (fun_ext (λ a. receive_loop-filter_by env.sender_node_id a inputs))

  -- A stream whose first message is of a node ends in the same way and leaves the same state as if the
  -- commands after it that are no envelope, or an envelope of another sender, had not been sent.
  pub stream_messages-filter_by :
      (c : Clock) (first : NodeCommand) (env : Envelope) (inputs : List Input) (m : SessionManager)
      → command_to_envelope json first ≡ decoded env
      → stream_messages json c first inputs m
        ≡ stream_messages json c first (filter_by (is_from json env.sender_node_id) inputs) m
  unfolding stream_messages
  stream_messages-filter_by c first env inputs m e =
      rw (e, stream_messages) (stream_of-filter_by c env inputs m)

  touch-IsSound : (now a : ℕ) (m : SessionManager) → IsSound m → IsSound (touch now (m.heap a) a m)
  unfolding touch
  touch-IsSound now a m v = record {
    live = λ k b e. ground (arith, v.live k b);
    unbanned = λ k h. ground (arith, v.unbanned k);
    distinct = ground (arith, v.distinct);
    counted = ground (arith, v.counted);
    subscribers = λ c d e. v.subscribers c d (ground arith);
  }

  log_id-IsSound :
      (id : String) (m : SessionManager)
      → IsSound m
      → IsSound (log_id {S = SessionManager} {E = Error} id m).1
  log_id-IsSound id m v = elim (Bool-cases (ltb (len id) 8)) [ inl e ↦ rw e v | inr e ↦ rw e v ]

  run_command-IsSound :
      (n : String) (cmd : RelayCommand) (m : SessionManager)
      → IsSound m
      → IsSound (run_command n cmd m).1
  unfolding run_command
  run_command-IsSound n cmd m v = elim (Bool-cases (cmd.command == "subscribe")) [
    | inl sub ↦ elim (Bool-cases (has_prefix cmd.channel "#")) [
      | inl ok' ↦ rw (sub, ok') (subscribe_to_channel-IsSound n cmd.channel m v)
      | inr bad ↦ rw (sub, bad) v
    ]
    | inr other ↦ elim (Bool-cases (cmd.command == "unsubscribe")) [
      | inl un ↦ rw (other, un) (unsubscribe_from_channel-IsSound n cmd.channel m v)
      | inr bad ↦ rw (other, bad) (log_id-IsSound n m v)
    ]
  ]

  handle_relay_command-IsSound :
      (a : ℕ) (env : Envelope) (m : SessionManager)
      → IsSound m
      → IsSound (handle_relay_command json a env m).1
  unfolding handle_relay_command
  handle_relay_command-IsSound a env m v =
      elim (Option-cases (json.unmarshal_command env.encrypted_payload)) [
        | inl bad ↦ rw bad (log_id-IsSound (node_id_at a m) m v)
        | inr (cmd, good) ↦ rw good (run_command-IsSound (node_id_at a m) cmd m v)
      ]

  receive_envelope-IsSound :
      (now a : ℕ) (n : String) (env : Envelope) (m : SessionManager)
      → IsSound m
      → IsSound (receive_envelope json now n a env m).1
  unfolding receive_envelope
  receive_envelope-IsSound now a n env m v = elim (Bool-cases (env.sender_node_id == n)) [
    | inr other ↦ rw other v
    | inl own ↦ elim (Bool-cases (env.target_node_id == "RELAY")) [
      | inl control ↦
          rw (own, control) (handle_relay_command-IsSound a env _ (touch-IsSound now a m v))
      | inr message ↦
          rw (own, message) (forward_envelope-IsSound now env _ (touch-IsSound now a m v))
    ]
  ]

  receive_command-IsSound :
      (now a : ℕ) (n : String) (cmd : NodeCommand) (m : SessionManager)
      → IsSound m
      → IsSound (receive_command json now n a cmd m).1
  unfolding receive_command
  receive_command-IsSound now a n cmd m v = by_command (command_to_envelope json cmd) refl
    where
      by_command :
          (d : Decoded)
          → command_to_envelope json cmd ≡ d
          → IsSound (receive_command json now n a cmd m).1
      by_command (decoded env) e =
          rw (e, receive_command) (receive_envelope-IsSound now a n env m v)
      by_command ignored e = rw (e, receive_command) v
      by_command malformed e = rw (e, receive_command) v

  receive_loop-IsSound :
      (n : String) (a : ℕ) (inputs : List Input) (m : SessionManager)
      → IsSound m
      → IsSound (receive_loop json n a inputs m).1
  unfolding receive_loop
  receive_loop-IsSound n a [] m v = v
  receive_loop-IsSound n a (command now cmd ∷ rest) m v =
      carry-keeps IsSound (receive_command json now n a cmd m).0 _
        (receive_command json now n a cmd m).1 (receive_command-IsSound now a n cmd m v)
        (λ _ w. receive_loop-IsSound n a rest _ w)
  receive_loop-IsSound n a (end_of_file ∷ rest) m v = v
  receive_loop-IsSound n a (failure ∷ rest) m v = v

  forward_first-IsSound :
      (now : ℕ) (env : Envelope) (bytes : List ℕ) (m : SessionManager)
      → env.encrypted_payload ≡ bytes
      → IsSound m
      → IsSound (forward_first now env m).1
  unfolding forward_first
  forward_first-IsSound now env [] m e v = rw (e, forward_first) v
  forward_first-IsSound now env (x ∷ xs) m e v =
      rw (e, forward_first) (forward_envelope-IsSound now env m v)

  stream_body-IsSound :
      (c : Clock) (env : Envelope) (a : ℕ) (inputs : List Input) (m : SessionManager)
      → IsSound m
      → IsSound (stream_body json c env a inputs m).1
  unfolding stream_body
  stream_body-IsSound c env a inputs m v =
      carry-keeps IsSound (log_id {S = SessionManager} {E = Error} env.sender_node_id m).0 _ _
        (log_id-IsSound env.sender_node_id m v)
        λ _ w.
          carry-keeps IsSound (forward_first c.now env _).0 _ _
            (forward_first-IsSound c.now env env.encrypted_payload _ refl w)
            λ _ u. receive_loop-IsSound env.sender_node_id a inputs _ u

  stream_of-IsSound :
      (c : Clock) (env : Envelope) (inputs : List Input) (m : SessionManager)
      → IsSound m
      → IsSound (stream_of json c env inputs m).1
  unfolding stream_of
  stream_of-IsSound c env inputs m v = elim (Bool-cases (env.sender_node_id == "")) [
    | inl empty ↦ rw empty v
    | inr named ↦ rw named (
        carry-keeps IsSound (register_session c env.sender_node_id [] m).0 _ _
          (register_session-IsSound c env.sender_node_id [] m v)
          (λ a w.
            unregister_session-IsSound env.sender_node_id _
              (stream_body-IsSound c env a inputs _ w)))
  ]

  -- The invariant of the session manager holds when a stream has ended.
  pub stream_messages-IsSound :
      (c : Clock) (first : NodeCommand) (inputs : List Input) (m : SessionManager)
      → IsSound m
      → IsSound (stream_messages json c first inputs m).1
  unfolding stream_messages
  stream_messages-IsSound c first inputs m v = by_command (command_to_envelope json first) refl
    where
      by_command :
          (d : Decoded)
          → command_to_envelope json first ≡ d
          → IsSound (stream_messages json c first inputs m).1
      by_command (decoded env) e = rw (e, stream_messages) (stream_of-IsSound c env inputs m v)
      by_command ignored e = rw (e, stream_messages) v
      by_command malformed e = rw (e, stream_messages) v
