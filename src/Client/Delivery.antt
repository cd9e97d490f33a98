-- ===== src/Client/Delivery.antt =====
-- A direct message as both sides store it.
use enxame.Base.{
  ℕ, String, ◌≡◌, refl, ap, ◌∙◌, true, false, List, [], ◌∷◌, ◌++◌, some, arith, any, length,
}
use enxame.Base.Exec.{ok}
use enxame.E2e.{is_aes_key}
use enxame.E2e.Laws.{IsLawful, encrypt_ok, opened}
use enxame.Relay.Types.{Envelope}
use enxame.Storage.{
  Message, insert_message, has_message_id, put_message, store_message, upsert_dm_session,
}
use enxame.Storage.History.{row_of}
use enxame.Client.{EnxameClient, E2ePayload, chat, Library, World, is_channel}
use enxame.Client.Outbox.{envelope_of, send, send_payload, message_id, get_dm_channel_id}
use enxame.Client.Keys.{session_key}
use enxame.Client.Handlers.{handle_chat_message}
use enxame.Client.Sending.{send_message}
use enxame.Client.Dispatch.{dispatch, handle_message}
use enxame.Client.Wire.{IsCodec, Sends, handle_message_lem, get_dm_channel_id_sym}

-- The messages that a client has stored.
abbrev pub stored : EnxameClient → List Message
stored c = c.storage.messages

module _ (lib : Library) where
  -- The payload of a chat message that is sealed with a nonce.
  abbrev pub chat_of : List ℕ → List ℕ → String → E2ePayload
  chat_of key nonce message = record {
    kind = chat;
    content = nonce ++ lib.e2e.gcm_seal key nonce (lib.to_bytes message);
  }

  send_message_lem :
      (w : World) (target message : String) (key nonce : List ℕ) (c : EnxameClient)
      → IsLawful lib.e2e
      → is_channel target ≡ false
      → session_key target c ≡ some key
      → is_aes_key key ≡ true
      → w.nonce ≡ some nonce
      → Sends w c
      → w.fails insert_message ≡ false
      → any (has_message_id (message_id w)) (stored c) ≡ false
      → let done = send_message lib w target message c in
        (done.0 ≡ ok tt)
        × (done.1.relay_client.sent
            ≡ c.relay_client.sent ++ envelope_of lib w target (chat_of key nonce message) c ∷ [])
        × (stored done.1
            ≡ row_of w.now
                (message_id w)
                c.node_id
                (get_dm_channel_id lib c.node_id target)
                message
                c.storage
              ∷ stored c)
  unfolding send_message send_payload send store_message put_message upsert_dm_session
  send_message_lem w target message key nonce c laws direct session good drawn (connected, works)
        stores new =
      ground (
        arith,
        direct,
        session,
        drawn,
        connected,
        works,
        stores,
        new,
        encrypt_ok lib.e2e laws nonce key (lib.to_bytes message) good,
      )

  handle_chat_message_lem :
      (w : World) (env : Envelope) (message : String) (key nonce : List ℕ) (c : EnxameClient)
      → IsLawful lib.e2e
      → lib.to_text (lib.to_bytes message) ≡ message
      → is_channel env.target_node_id ≡ false
      → session_key env.sender_node_id c ≡ some key
      → is_aes_key key ≡ true
      → length nonce ≡ 12
      → w.fails insert_message ≡ false
      → any (has_message_id env.message_id) (stored c) ≡ false
      → let done = handle_chat_message lib w env (chat_of key nonce message).content c in
        (done.0 ≡ ok tt)
        × (stored done.1
            ≡ row_of w.now env.message_id env.sender_node_id
                (get_dm_channel_id lib c.node_id env.sender_node_id)
                message
                c.storage
              ∷ stored c)
  unfolding handle_chat_message store_message put_message upsert_dm_session
  handle_chat_message_lem w env message key nonce c laws text direct session good sized stores new =
      ground (
        arith,
        text,
        direct,
        session,
        stores,
        new,
        opened lib.e2e laws key nonce (lib.to_bytes message) sized good,
      )

  -- Of two connected clients with the same session key, one sends the other a text message and stores it;
  -- the other, handling the envelope that was sent, stores the same text of the same sender under the
  -- same message and conversation ids, if neither database knows the message id and no insertion fails.
  pub handle_message-send_message :
      (w v : World) (message : String) (key nonce : List ℕ) (c d : EnxameClient)
      → IsLawful lib.e2e
      → IsCodec lib.payloads
      → lib.to_text (lib.to_bytes message) ≡ message
      → is_channel d.node_id ≡ false
      → session_key d.node_id c ≡ some key
      → session_key c.node_id d ≡ some key
      → is_aes_key key ≡ true
      → w.nonce ≡ some nonce
      → length nonce ≡ 12
      → Sends w c
      → w.fails insert_message ≡ false
      → v.fails insert_message ≡ false
      → any (has_message_id (message_id w)) (stored c) ≡ false
      → any (has_message_id (message_id w)) (stored d) ≡ false
      → let sent = send_message lib w d.node_id message c in
        let place = get_dm_channel_id lib c.node_id d.node_id in
        (env : Envelope) × (sent.1.relay_client.sent ≡ c.relay_client.sent ++ env ∷ [])
        × ((sent.0 ≡ ok tt)
            × (stored sent.1
                ≡ row_of w.now (message_id w) c.node_id place message c.storage ∷ stored c))
        × ((handle_message lib v env d).0 ≡ ok tt)
        × (stored (handle_message lib v env d).1
            ≡ row_of v.now (message_id w) c.node_id place message d.storage ∷ stored d)
  unfolding dispatch
  handle_message-send_message w v message key nonce c d laws codec text direct session session' good
        drawn sized sends stores stores' new new' =
      let env = envelope_of lib w d.node_id (chat_of key nonce message) c in
      let sent =
        send_message_lem w d.node_id message key nonce c laws direct session good drawn sends stores
          new in
      let read = handle_message_lem lib v env (chat_of key nonce message) d codec refl in
      let got =
        handle_chat_message_lem v env message key nonce d laws text direct session' good sized
          stores' new' in
      (
        env,
        sent.1,
        (sent.0, sent.2),
        ap (λ x. x.0) read ∙ got.0,
        ap (λ x. stored x.1) read
            ∙ got.1
            ∙ ap (λ x. row_of v.now (message_id w) c.node_id x message d.storage ∷ stored d)
                (get_dm_channel_id_sym lib d.node_id c.node_id),
      )
