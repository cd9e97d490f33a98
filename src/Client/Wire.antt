-- ===== src/Client/Wire.antt =====
-- What one client sends is what the other handles.
use enxame.Base.{String, ◌≡◌, refl, false, true, [], ◌∷◌, ◌++◌, some, arith, inl, inr}
use enxame.Relay.Types.{Envelope}
use enxame.Storage.Order.{is_after_total, is_after_asym}
use enxame.Client.{EnxameClient, E2ePayload, Json, Library, World}
use enxame.Client.Outbox.{envelope_of, send, send_payload, get_dm_channel_id}
use enxame.Client.Dispatch.{dispatch, handle_message}

-- encoding/json decodes what it has encoded.
abbrev pub IsCodec : {A : Type 0} → Json A → Type 0
IsCodec {A = A} json = (a : A) → json.unmarshal (json.marshal a) ≡ some a

-- The connection carries what is sent.
abbrev pub Sends : World → EnxameClient → Type 0
Sends w c = (c.relay_client.connected ≡ true) × (w.send_fails ≡ false)

module _ (lib : Library) where
  pub handle_message_lem :
      (w : World) (env : Envelope) (payload : E2ePayload) (c : EnxameClient)
      → IsCodec lib.payloads
      → env.encrypted_payload ≡ lib.payloads.marshal payload
      → handle_message lib w env c ≡ dispatch lib w env payload.kind payload.content c
  unfolding handle_message
  handle_message_lem w env payload c codec e = rw (e, codec payload) refl

  pub send_payload_lem :
      (w : World) (target : String) (payload : E2ePayload) (c : EnxameClient)
      → Sends w c
      → (send_payload lib w target payload c).1.relay_client.sent
        ≡ c.relay_client.sent ++ envelope_of lib w target payload c ∷ []
  unfolding send_payload send
  send_payload_lem w target payload c (connected, works) = ground (arith, connected, works)

  -- The conversation of two nodes has one id, whichever of them asks.
  pub get_dm_channel_id_sym : (a b : String) → get_dm_channel_id lib a b ≡ get_dm_channel_id lib b a
  unfolding get_dm_channel_id
  get_dm_channel_id_sym a b = elim (is_after_total a b) [
    | inl above ↦ rw (above, is_after_asym a b above) refl
    | inr (inl below) ↦ rw (below, is_after_asym b a below) refl
    | inr (inr same) ↦ rw same refl
  ]
