-- ===== src/Client/Handshake.antt =====
-- Two clients agree on a key.
use enxame.Base.{
  ℕ, String, ◌≡◌, refl, ap, ◌∙◌, true, List, [], ◌∷◌, ◌++◌, none, some, arith, eq_refl,
}
use enxame.Base.Dict.{lookup, lookup-insert, lookup-delete}
use enxame.Relay.Types.{Envelope}
use enxame.E2e.{is_aes_key, generate_key_exchange_pair, derive_shared_secret}
use enxame.E2e.Laws.{IsLawful, derive_shared_secret_agrees}
use enxame.Client.{EnxameClient, E2ePayload, key_exchange_init, key_exchange_ack, Library, World}
use enxame.Client.Outbox.{envelope_of, send, send_payload, initiate_handshake}
use enxame.Client.Keys.{session_key}
use enxame.Client.Handlers.{handle_key_exchange_init, handle_key_exchange_ack}
use enxame.Client.Dispatch.{dispatch, handle_message}
use enxame.Client.Wire.{IsCodec, Sends, handle_message_lem}

module _ (lib : Library) where
  -- The payloads of the two messages of an exchange.
  abbrev pub init_of : List ℕ → E2ePayload
  init_of priv = record { kind = key_exchange_init; content = lib.e2e.public_key priv }

  abbrev pub ack_of : List ℕ → E2ePayload
  ack_of priv = record { kind = key_exchange_ack; content = lib.e2e.public_key priv }

  initiate_handshake_lem :
      (w : World) (target : String) (priv : List ℕ) (c : EnxameClient)
      → w.private_key ≡ some priv
      → Sends w c
      → let started = (initiate_handshake lib w target c).1 in
        (started.relay_client.sent
          ≡ c.relay_client.sent ++ envelope_of lib w target (init_of priv) c ∷ [])
        × (lookup target started.e2e_pending_keys
            ≡ some (record { private = priv; public = lib.e2e.public_key priv }))
  unfolding initiate_handshake generate_key_exchange_pair send_payload send
  initiate_handshake_lem w target priv c drawn (connected, works) = ground (
    arith,
    drawn,
    connected,
    works,
    lookup-insert target target (record { private = priv; public = lib.e2e.public_key priv })
        c.e2e_pending_keys,
    eq_refl target,
  )

  handle_key_exchange_init_lem :
      (w : World) (sender : String) (priv peer_pub key : List ℕ) (c : EnxameClient)
      → w.private_key ≡ some priv
      → derive_shared_secret lib.e2e priv peer_pub ≡ some key
      → Sends w c
      → let answered = (handle_key_exchange_init lib w sender peer_pub c).1 in
        (answered.relay_client.sent
          ≡ c.relay_client.sent ++ envelope_of lib w sender (ack_of priv) c ∷ [])
        × (session_key sender answered ≡ some key)
  unfolding handle_key_exchange_init generate_key_exchange_pair send_payload send
  handle_key_exchange_init_lem w sender priv peer_pub key c drawn agreed (connected, works) =
      ground (
        arith,
        drawn,
        agreed,
        connected,
        works,
        lookup-insert sender sender (record { shared_key = key; created_at = w.now })
            c.e2e_sessions,
        eq_refl sender,
      )

  handle_key_exchange_ack_lem :
      (w : World) (sender : String) (priv pub_key peer_pub key : List ℕ) (c : EnxameClient)
      → lookup sender c.e2e_pending_keys ≡ some (record { private = priv; public = pub_key })
      → derive_shared_secret lib.e2e priv peer_pub ≡ some key
      → let done = (handle_key_exchange_ack lib w sender peer_pub c).1 in
        (session_key sender done ≡ some key) × (lookup sender done.e2e_pending_keys ≡ none)
  unfolding handle_key_exchange_ack
  handle_key_exchange_ack_lem w sender priv pub_key peer_pub key c pending agreed = ground (
    arith,
    pending,
    agreed,
    lookup-insert sender sender (record { shared_key = key; created_at = w.now }) c.e2e_sessions,
    lookup-delete sender sender c.e2e_pending_keys,
    eq_refl sender,
  )

  -- Where X25519 gives the two drawn private keys a secret, an exchange leaves both sides with one
  -- session key: the first client sends one message, the second answers it with one and has the key,
  -- and the first, having handled the answer, has the same key and no pending pair. AES accepts the key.
  pub handshake_lem :
      (u v w : World) (a b key : List ℕ) (c d : EnxameClient)
      → IsLawful lib.e2e
      → IsCodec lib.payloads
      → u.private_key ≡ some a
      → v.private_key ≡ some b
      → derive_shared_secret lib.e2e a (lib.e2e.public_key b) ≡ some key
      → Sends u c
      → Sends v d
      → let started = (initiate_handshake lib u d.node_id c).1 in
        (init : Envelope) × (ack : Envelope) × (started.relay_client.sent
          ≡ c.relay_client.sent ++ init ∷ [])
        × (let answered = (handle_message lib v init d).1 in
            (answered.relay_client.sent ≡ d.relay_client.sent ++ ack ∷ [])
            × (session_key c.node_id answered ≡ some key))
        × (let done = (handle_message lib w ack started).1 in
            (session_key d.node_id done ≡ some key)
            × (lookup d.node_id done.e2e_pending_keys ≡ none))
        × (is_aes_key key ≡ true)
  unfolding dispatch
  handshake_lem u v w a b key c d laws codec drawn drawn' agreed sends sends' =
      let started = (initiate_handshake lib u d.node_id c).1 in
      let begun = initiate_handshake_lem u d.node_id a c drawn sends in
      let both = derive_shared_secret_agrees lib.e2e laws a b key agreed in
      let init = envelope_of lib u d.node_id (init_of a) c in
      let ack = envelope_of lib v c.node_id (ack_of b) d in
      let answer =
        handle_key_exchange_init_lem v c.node_id b (lib.e2e.public_key a) key d drawn' both.0
          sends' in
      let finish =
        handle_key_exchange_ack_lem w d.node_id a (lib.e2e.public_key a) (lib.e2e.public_key b) key
          started begun.1 agreed in
      let init-read = ap (λ x. x.1) (handle_message_lem lib v init (init_of a) d codec refl) in
      let ack-read = ap (λ x. x.1) (handle_message_lem lib w ack (ack_of b) started codec refl) in
      (
        init,
        ack,
        begun.0,
        (
          ap (λ x. x.relay_client.sent) init-read ∙ answer.0,
          ap (session_key c.node_id) init-read ∙ answer.1,
        ),
        (
          ap (session_key d.node_id) ack-read ∙ finish.0,
          ap (λ x. lookup d.node_id x.e2e_pending_keys) ack-read ∙ finish.1,
        ),
        both.1,
      )
