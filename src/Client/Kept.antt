-- ===== src/Client/Kept.antt =====
-- The calls of a client that leave the members of its channels as they are: all but two handlers.
use enxame.Base.{
  ℕ, String, ◌≡◌, refl, ◌∙◌, false, List, Option, none, some, arith, ltb, length, suc, Bool-cases,
  inl, inr,
}
use enxame.Base.Exec.{bind-keeps}
use enxame.Relay.Types.{Envelope}
use enxame.Storage.{Member, ChannelTag}
use enxame.Storage
use enxame.Client.{
  EnxameClient, FileManifest, checking, Client, Library, World, MessageType, tag_created,
  E2ePayload, is_channel, machine_of,
}
use enxame.Client.Outbox.{send, send_payload, initiate_handshake, subscribe_to_relay_channel}
use enxame.Client.Keys.{channel_key, channel_key_or_empty, get_channel_key_bytes}
use enxame.Client.Handlers.{send_secure_message, decrypt_payload}
use enxame.Client.Updates
use enxame.Client.Hub
use enxame.Client.Sending.{send_message}
use enxame.Client.Core
use enxame.Client.Core.{Answer}
use enxame.Client.Files.{
  Read, Split, out_of_fuel, broken, into, size_limit, file_id, split_file, manifest_of,
  send_manifest, send_file, save_file_to_disk,
}
pub mod Handled

abbrev pub members : EnxameClient → List Member
members c = c.storage.channel_members

-- The call leaves the members as they are.
abbrev pub Keeps : {A : Type 0} → Client A → Type 0
Keeps m = (c : EnxameClient) → members (m c).1 ≡ members c

module _ (lib : Library) (w : World) where
  pub send-Keeps : (env : Envelope) (c : EnxameClient) → members (send w env c) ≡ members c
  unfolding send
  send-Keeps env c = ground arith

  pub send_payload-Keeps : (target : String) (p : E2ePayload) → Keeps (send_payload lib w target p)
  unfolding send_payload send
  send_payload-Keeps target p c = ground arith

  pub initiate_handshake-Keeps : (target : String) → Keeps (initiate_handshake lib w target)
  unfolding initiate_handshake send_payload send
  initiate_handshake-Keeps target c = ground arith

  pub subscribe-Keeps : (channel : String) → Keeps (subscribe_to_relay_channel lib w channel)
  unfolding subscribe_to_relay_channel send
  subscribe-Keeps channel c = ground arith

  pub channel_key-Keeps : (channel : String) → Keeps (channel_key w channel)
  unfolding channel_key
  channel_key-Keeps channel c = ground arith

  pub channel_key_or_empty-Keeps : (channel : String) → Keeps (channel_key_or_empty w channel)
  unfolding channel_key_or_empty
  channel_key_or_empty-Keeps channel c = ground arith

  pub get_channel_key_bytes-Keeps : (channel : String) → Keeps (get_channel_key_bytes w channel)
  unfolding get_channel_key_bytes
  get_channel_key_bytes-Keeps channel c = ground arith

  pub send_secure_message-Keeps :
      (target : String) (kind : MessageType) (bytes : List ℕ)
      → Keeps (send_secure_message lib w target kind bytes)
  unfolding send_secure_message initiate_handshake send_payload send
  send_secure_message-Keeps target kind bytes c = ground arith

  pub decrypt_payload-Keeps :
      (sender target : String) (bytes : List ℕ) → Keeps (decrypt_payload lib w sender target bytes)
  unfolding decrypt_payload channel_key_or_empty
  decrypt_payload-Keeps sender target bytes c = ground arith

  pub set_channel_config-Keeps :
      (channel key val : String) → Keeps (Hub.set_channel_config lib w channel key val)
  unfolding Hub.set_channel_config Hub.require_officer channel_key Storage.set_channel_config
      send_payload send
  set_channel_config-Keeps channel key val c = ground arith

  pub send_message-Keeps : (target message : String) → Keeps (send_message lib w target message)
  unfolding send_message initiate_handshake send_payload send channel_key Storage.store_message
      Storage.put_message Storage.upsert_dm_session
  send_message-Keeps target message c = ground arith

  send_manifest-Keeps :
      (target : String) (manifest : FileManifest) → Keeps (send_manifest lib w target manifest)
  unfolding send_payload send Storage.store_message Storage.put_message Storage.upsert_dm_session
  send_manifest-Keeps target manifest c = elim (Bool-cases (is_channel target)) [
    | inl yes' ↦ ground (arith, yes')
    | inr no' ↦ ground (arith, no')
  ]

  pub send_file-Keeps :
      (read : List ℕ → Read) (target path : String) (content : Option (List ℕ))
      → Keeps (send_file lib w read target path content)
  unfolding send_file
  send_file-Keeps read target path none c = refl
  send_file-Keeps read target path (some content) c =
      elim (Bool-cases (ltb size_limit (length content))) [
        | inl large ↦ ground (arith, large)
        | inr fits ↦
            by_split fits
              (split_file lib w read (file_id w) (suc (length content)) 0 content c.files).0 refl
      ]
    where
      by_split :
          ltb size_limit (length content) ≡ false
          → (s : Split)
          → (split_file lib w read (file_id w) (suc (length content)) 0 content c.files).0 ≡ s
          → members (send_file lib w read target path (some content) c).1 ≡ members c
      by_split fits out_of_fuel e = ground (arith, fits, e)
      by_split fits broken e = ground (arith, fits, e)
      by_split fits (into ms) e = ground (
        arith,
        fits,
        e,
        send_manifest-Keeps target (manifest_of lib w path content ms c) (record c {
          files = (split_file lib w read (file_id w) (suc (length content)) 0 content c.files).1;
        }),
      )

  pub save_file_to_disk-Keeps : (id dest : String) → Keeps (save_file_to_disk lib w id dest)
  unfolding save_file_to_disk
  save_file_to_disk-Keeps id dest c = ground arith

  pub create_channel-Keeps :
      (key : List ℕ) (call : String → String → Answer String) (name : String)
      → Keeps (Core.create_channel lib w key call name)
  unfolding Core.create_channel subscribe_to_relay_channel send Storage.save_channel_key
  create_channel-Keeps key call name c = ground arith

  pub join_channel-Keeps : (channel : String) → Keeps (Core.join_channel lib w channel)
  unfolding Core.join_channel subscribe_to_relay_channel send
  join_channel-Keeps channel c = ground arith

  pub save_wiki_page-Keeps :
      (channel title content : String) → Keeps (Hub.save_wiki_page lib w channel title content)
  unfolding Hub.save_wiki_page channel_key Storage.save_wiki_page send_payload send
  save_wiki_page-Keeps channel title content c = ground arith

  require_officer-Keeps : (channel : String) → Keeps (Hub.require_officer w channel)
  unfolding Hub.require_officer
  require_officer-Keeps channel c = ground arith

  broadcast-Keeps :
      (channel : String) (kind : MessageType) (key bytes : List ℕ)
      → Keeps (Hub.broadcast lib w channel kind key bytes)
  unfolding send_payload send
  broadcast-Keeps channel kind key bytes c = ground arith

  storing_tag-Keeps : (t : ChannelTag) → Keeps (checking (Storage.create_tag (machine_of w) t))
  unfolding Storage.create_tag
  storing_tag-Keeps t c = ground arith

  storing_avatar-Keeps :
      (channel avatar : String)
      → Keeps (checking (Storage.update_channel_avatar (machine_of w) channel avatar))
  unfolding Storage.update_channel_avatar
  storing_avatar-Keeps channel avatar c = ground arith

  pub create_tag-Keeps :
      (channel name color : String) → Keeps (Hub.create_tag lib w channel name color)
  unfolding Hub.create_tag
  create_tag-Keeps channel name color c =
      bind-keeps (λ x. members x ≡ members c) (Hub.require_officer w channel) _
        (λ x k. require_officer-Keeps channel x ∙ k)
        (λ u.
          bind-keeps (λ x. members x ≡ members c) (checking (Storage.create_tag (machine_of w) _)) _
            (λ x k. storing_tag-Keeps _ x ∙ k)
            (λ u'.
              bind-keeps (λ x. members x ≡ members c) (get_channel_key_bytes w channel) _
                (λ x k. get_channel_key_bytes-Keeps channel x ∙ k)
                (λ key x k. broadcast-Keeps channel tag_created key _ x ∙ k)))
        c refl

  pub tag_message-Keeps :
      (channel message tag : String) → Keeps (Hub.tag_message lib w channel message tag)
  unfolding Hub.tag_message get_channel_key_bytes Storage.add_message_tag send_payload send
  tag_message-Keeps channel message tag c = ground arith

  expect-Keeps : {A : Type 0} (answer : Answer A) → Keeps (Core.expect answer)
  expect-Keeps Core.failed c = refl
  expect-Keeps Core.unsuccessful c = refl
  expect-Keeps (Core.answered a) c = refl

  pub update_channel_avatar-Keeps :
      (call : String → String → String → ℕ → List ℕ → Answer Unit) (channel avatar : String)
      → Keeps (Core.update_channel_avatar lib w call channel avatar)
  unfolding Core.update_channel_avatar
  update_channel_avatar-Keeps call channel avatar c =
      bind-keeps (λ x. members x ≡ members c) (Hub.require_officer w channel) _
        (λ x k. require_officer-Keeps channel x ∙ k)
        (λ u x k.
          bind-keeps (λ x'. members x' ≡ members c) (Core.expect _) _
            (λ x' k'. expect-Keeps _ x' ∙ k')
            (λ u' x' k'. storing_avatar-Keeps channel avatar x' ∙ k') x k)
        c refl

pub keep_token-Keeps : (w : World) (answer : Answer String) → Keeps (Core.keep_token w answer)
unfolding Core.keep_token Storage.set_config
keep_token-Keeps w answer c = ground arith

pub logout-Keeps : (w : World) → Keeps (Core.logout w)
unfolding Core.logout Storage.set_config
logout-Keeps w c = ground arith
