-- ===== src/Client/Updates.antt =====
-- The handlers of client.go for the wiki, the settings and the tags of a channel, and for files.
use enxame.Base.{ℕ, String, Bool, true, List, Option, none, some, if◌then◌else◌, is_some}
use enxame.Base.Text.{◌==◌}
use enxame.Base.Dict.{lookup, insert}
use enxame.Base.Word.{format_int}
use enxame.Base.Exec.{choose, ◌>>=◌, ◌>>◌, pure, fail, gets, modify}
use enxame.E2e.{decrypt}
use enxame.Relay.Types.{Envelope}
use enxame.Storage
use enxame.Storage.{
  store_message, save_wiki_page, WikiPage, ChannelConfig, ChannelTag, MessageTag, create_tag,
  add_message_tag,
}
use enxame.Client.{
  FileManifest, MessageEvent, Library, World, Client, chunk_response, malformed, stopped,
  decrypt_failed, machine_of, ignoring, is_channel, notify,
}
use enxame.Client.Keys.{key_or_empty}
use enxame.Client.Handlers.{cut, skip, storage_target, send_secure_message, decrypt_payload}
use Prim.Native.String

-- json.Unmarshal, whose error ends the handler.
abbrev pub parsed : {A : Type 0} → Option A → Client A
parsed none = fail malformed
parsed (some a) = pure a

abbrev pub event_of : World → String → String → String → String → ℕ → Bool → MessageEvent
event_of w id sender target content timestamp channel = record {
  id = id;
  sender_id = sender;
  target_id = target;
  content = content;
  timestamp = timestamp;
  is_channel = channel;
}

-- fmt.Sprintf("[FILE:%s:%s:%d]", id, name, size)
unfoldable pub file_message : FileManifest → String
unfolding format_int
file_message m = String.◌++◌ "[FILE:" (
    String.◌++◌ m.file_id (
      String.◌++◌ ":" (String.◌++◌ m.name (String.◌++◌ ":" (String.◌++◌ (format_int m.size) "]")))))

-- fmt.Sprintf("%s_%s.dat", id, index)
abbrev pub chunk_name : String → String → String
chunk_name id index = String.◌++◌ id (String.◌++◌ "_" (String.◌++◌ index ".dat"))

-- os.WriteFile, whose error is ignored.
abbrev pub write_file : World → String → List ℕ → Client Unit
write_file w path bytes =
    if w.write_fails path then skip else modify λ c. record c { files = insert path bytes c.files }

module _ (lib : Library) where
  unfoldable pub handle_wiki_update : World → String → String → List ℕ → Client Unit
  handle_wiki_update w sender target ciphertext = do
    plain ← decrypt_payload lib w sender target ciphertext
    page ← parsed (lib.pages.unmarshal plain)
    ignoring (save_wiki_page (machine_of w) page)
    notify (
        event_of w (String.◌++◌ "wiki-" page.id) sender target "[Wiki Update]" page.updated_at
          (is_channel target))

  -- The role of the sender is not asked for.
  unfoldable pub handle_metadata_update : World → String → String → List ℕ → Client Unit
  handle_metadata_update w sender target ciphertext = do
    plain ← decrypt_payload lib w sender target ciphertext
    config ← parsed (lib.configs.unmarshal plain)
    ignoring (Storage.set_channel_config (machine_of w) config.channel_id config.key config.value)
    choose (config.key == "avatar")
        (ignoring (Storage.update_channel_avatar (machine_of w) config.channel_id config.value))
        skip

  unfoldable pub handle_tag_created : World → String → String → List ℕ → Client Unit
  handle_tag_created w sender target ciphertext = do
    plain ← decrypt_payload lib w sender target ciphertext
    tag ← parsed (lib.tags.unmarshal plain)
    ignoring (create_tag (machine_of w) tag)
    notify (
        event_of w (String.◌++◌ "tag-" tag.id) sender target
          (String.◌++◌ "[Tag Created: " (String.◌++◌ tag.name "]")) w.now true)

  unfoldable pub handle_tag_added : World → String → String → List ℕ → Client Unit
  handle_tag_added w sender target ciphertext = do
    plain ← decrypt_payload lib w sender target ciphertext
    mt ← parsed (lib.message_tags.unmarshal plain)
    ignoring (add_message_tag (machine_of w) mt)
    notify (event_of w (String.◌++◌ "tag-add-" mt.tag_id) sender target "[Tag Added]" w.now true)

  -- The manifest is kept, whoever sent it.
  abbrev take_manifest : World → Envelope → FileManifest → Client Unit
  take_manifest w env manifest = do
    modify λ c. record c { manifests = insert manifest.file_id manifest c.manifests }
    place ← gets (storage_target lib env.sender_node_id env.target_node_id)
    ignoring (
        store_message (machine_of w) env.message_id env.sender_node_id place
          (file_message manifest))
    notify (
        event_of w env.message_id env.sender_node_id place (file_message manifest) env.timestamp
          (is_channel env.target_node_id))

  unfoldable pub handle_file_payload : World → Envelope → List ℕ → Client Unit
  handle_file_payload w env ciphertext = do
    key ← gets (key_or_empty w env.sender_node_id env.target_node_id)
    plain ← elim (decrypt lib.e2e key ciphertext) [
      | none ↦ fail decrypt_failed
      | some bytes ↦ pure bytes
    ]
    manifest ← parsed (lib.manifests.unmarshal plain)
    take_manifest w env manifest

  abbrev serve : World → String → String → String → Option (List ℕ) → Client Unit
  serve w sender id index none = fail stopped
  serve w sender id index (some bytes) =
      send_secure_message lib w sender chunk_response
        (lib.chunk_responses.marshal (record { file_id = id; index = index; bytes = bytes }))

  -- strings.Split(content, "|"), which must have two parts.
  abbrev serve_request : World → String → Option (String × String) → Client Unit
  serve_request w sender none = fail malformed
  serve_request w sender (some (id, index)) = if is_some (cut index) then fail malformed else do
    bytes ← gets λ c. lookup (lib.chunk_path (chunk_name id index)) c.files
    serve w sender id index bytes

  unfoldable pub handle_chunk_request : World → String → List ℕ → Client Unit
  handle_chunk_request w sender content = serve_request w sender (cut (lib.to_text content))

  -- Nothing is compared with a manifest.
  unfoldable pub handle_chunk_response : World → List ℕ → Client Unit
  handle_chunk_response w content = do
    resp ← parsed (lib.chunk_responses.unmarshal content)
    write_file w (lib.chunk_path (chunk_name resp.file_id resp.index)) resp.bytes
