-- ===== src/Client/Sending.antt =====
-- SendMessage in client.go, and Connect in pkg/relay/client.go.
use enxame.Base.{
  ℕ, String, Bool, true, false, not, ◌||◌, List, [], ◌∷◌, Option, none, some, if◌then◌else◌,
}
use enxame.Base.Dict.{has}
use enxame.Base.Exec.{choose, ok, err, ◌>>=◌, ◌>>◌, pure, fail, gets, modify, refuse_if}
use enxame.E2e.{encrypt}
use enxame.Storage.{store_message, upsert_dm_session}
use enxame.Client.{
  Library, World, Client, chat, not_connected, no_channel_key, initiating_handshake, encrypt_failed,
  call_failed, machine_of, ignoring, is_channel,
}
use enxame.Client.Outbox.{send, send_payload, initiate_handshake, type_control}
use enxame.Client.Keys.{channel_key, session_key}
use enxame.Client.Handlers.{skip, storage_target}

-- len(key) == 0
abbrev pub is_empty : List ℕ → Bool
is_empty [] = true
is_empty (x ∷ xs) = false

module _ (lib : Library) where
  abbrev peer_key : World → String → Option (List ℕ) → Client (List ℕ)
  peer_key w target none = do initiate_handshake lib w target; fail initiating_handshake
  peer_key w target (some key) = pure key

  abbrev nonempty : Option (List ℕ) → Client (List ℕ)
  nonempty none = fail no_channel_key
  nonempty (some key) = if is_empty key then fail no_channel_key else pure key

  -- A key that is in memory is not used: the source assigns it only where there was none.
  abbrev key_unless_remembered : World → String → Bool → Client (List ℕ)
  key_unless_remembered w target true = fail no_channel_key
  key_unless_remembered w target false = do key ← channel_key w target; nonempty key

  -- The key under which a message to a target is sealed.
  abbrev pub key_for : World → String → Client (List ℕ)
  key_for w target =
      choose (is_channel target)
        (do
          remembered ← gets (λ c. has target c.channel_keys)
          key_unless_remembered w target remembered)
        (do key ← gets (session_key target); peer_key w target key)

  -- What is encrypted is sent and, whether it was sent or not, stored.
  abbrev deliver : World → String → String → Option (List ℕ) → Client Unit
  deliver w target message none = fail encrypt_failed
  deliver w target message (some ciphertext) = do
    id ← send_payload lib w target (record { kind = chat; content = ciphertext })
    place ← gets (storage_target lib target target)
    choose (is_channel target) skip (ignoring (upsert_dm_session (machine_of w) place target))
    sender ← gets (λ c. c.node_id)
    ignoring (store_message (machine_of w) id sender place message)

  unfoldable pub send_message : World → String → String → Client Unit
  send_message w target message = do
    connected ← gets (λ c. c.relay_client.connected)
    refuse_if (not connected) not_connected
    key ← key_for w target
    deliver w target message (encrypt lib.e2e w.nonce key (lib.to_bytes message))

-- Connect, where the connection and the stream can be made or not: the client is connected before the
-- greeting is sent, and not connected if it cannot be.
unfoldable pub connect : World → Bool → Bool → Client Unit
connect w connection stream = if not connection || not stream then fail call_failed else do
  modify λ c. record c { relay_client = record c.relay_client { connected = true } }
  modify λ c.
      send w
        (record {
          message_id = "handshake";
          sender_node_id = c.node_id;
          target_node_id = "";
          encrypted_payload = [];
          nonce = [];
          sender_signature = [];
          timestamp = 0;
          message_type = type_control;
        })
        c
  λ c.
      if w.send_fails
      then (
        err call_failed,
        record c { relay_client = record c.relay_client { connected = false } },
      )
      else (ok tt, c)
