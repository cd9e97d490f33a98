-- ===== src/Client/Sessions.antt =====
-- What the messages of a key exchange do to a session that is there.
use enxame.Base.{ℕ, String, ◌≡◌, refl, ap, ◌∙◌, true, false, List, [], some, arith, eq_refl}
use enxame.Base.Dict.{lookup-insert}
use enxame.Base.Exec.{err}
use enxame.E2e.{encrypt, generate_key_exchange_pair, derive_shared_secret}
use enxame.Relay.Types.{Envelope}
use enxame.Client.{
  EnxameClient, E2ePayload, Library, World, key_exchange_init, encrypt_failed, is_channel,
}
use enxame.Client.Outbox.{send, send_payload}
use enxame.Client.Keys.{session_key}
use enxame.Client.Handlers.{handle_key_exchange_init}
use enxame.Client.Sending.{send_message}
use enxame.Client.Dispatch.{dispatch, handle_message}
use enxame.Client.Wire.{IsCodec, handle_message_lem}

module _ (lib : Library) where
  handle_key_exchange_init-invalid :
      (w : World) (sender : String) (priv peer_pub : List ℕ) (c : EnxameClient)
      → w.private_key ≡ some priv
      → lib.e2e.is_public_key peer_pub ≡ false
      → let d = (handle_key_exchange_init lib w sender peer_pub c).1 in
        (session_key sender d ≡ some []) × (d.relay_client.connected ≡ c.relay_client.connected)
  unfolding handle_key_exchange_init generate_key_exchange_pair derive_shared_secret send_payload
      send
  handle_key_exchange_init-invalid w sender priv peer_pub c drawn invalid = ground (
    arith,
    drawn,
    invalid,
    lookup-insert sender sender (record { shared_key = []; created_at = w.now }) c.e2e_sessions,
    eq_refl sender,
  )

  send_message-empty_session :
      (w : World) (target message : String) (c : EnxameClient)
      → is_channel target ≡ false
      → c.relay_client.connected ≡ true
      → session_key target c ≡ some []
      → send_message lib w target message c ≡ (err encrypt_failed, c)
  unfolding send_message encrypt
  send_message-empty_session w target message c direct connected session =
      rw (connected, direct, session) refl

  -- When a connected client that draws a private key has handled an exchange that a node began with an
  -- invalid public key, a message to that node fails, whatever it says, and leaves the client as it is,
  -- so that no new exchange is begun.
  pub send_message-invalid_key :
      (w v : World) (env : Envelope) (payload : E2ePayload) (priv : List ℕ) (message : String)
      (c : EnxameClient)
      → IsCodec lib.payloads
      → env.encrypted_payload ≡ lib.payloads.marshal payload
      → payload.kind ≡ key_exchange_init
      → lib.e2e.is_public_key payload.content ≡ false
      → w.private_key ≡ some priv
      → is_channel env.sender_node_id ≡ false
      → c.relay_client.connected ≡ true
      → let d = (handle_message lib w env c).1 in
        send_message lib v env.sender_node_id message d ≡ (err encrypt_failed, d)
  unfolding dispatch
  send_message-invalid_key w v env payload priv message c codec e kind invalid drawn direct
        connected =
      let read =
        ap (λ x. x.1)
          (handle_message_lem lib w env payload c codec e
            ∙ ap (λ k. dispatch lib w env k payload.content c) kind) in
      let after =
        handle_key_exchange_init-invalid w env.sender_node_id priv payload.content c drawn
          invalid in
      send_message-empty_session v env.sender_node_id message (handle_message lib w env c).1 direct
        (ap (λ x. x.relay_client.connected) read ∙ after.1 ∙ connected)
        (ap (session_key env.sender_node_id) read ∙ after.0)
