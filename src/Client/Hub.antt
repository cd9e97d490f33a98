-- ===== src/Client/Hub.antt =====
-- The wiki, the settings and the tags of a channel as a client changes them, in client.go.
use enxame.Base.{ℕ, String, Bool, not, ◌||◌, List, Option, none, some, map, ltb, ◌+◌}
use enxame.Base.Text.{◌==◌}
use enxame.Base.Word.{format_int}
use enxame.Base.Exec.{◌>>=◌, ◌>>◌, pure, fail, gets, refuse_if}
use enxame.E2e.{encrypt}
use enxame.Storage
use enxame.Storage.{Member, WikiPage, ChannelTag, add_message_tag}
use enxame.Storage.Queries
use enxame.Storage.Queries.{get_member, get_messages}
use enxame.Client.{
  EnxameClient, Library, World, Client, MessageType, wiki_update, metadata_update, tag_created,
  tag_added, permission_denied, key_not_found, machine_of, checking, query,
}
use enxame.Client.Outbox.{send_payload}
use enxame.Client.Keys.{channel_key, get_channel_key_bytes}
use enxame.Client.Handlers.{bytes_or_nil}
use Prim.Native.String

abbrev is_officer : String → Bool
is_officer role = role == "OWNER" || role == "ADMIN"

abbrev pub role_or_user : Option Member → String
role_or_user none = "USER"
role_or_user (some member) = member.role

-- The role that the client has for itself in a channel; "USER" if it has none.
abbrev pub own_role : World → String → EnxameClient → String
own_role w channel c = role_or_user (query (get_member (machine_of w) channel c.node_id) c)

unfoldable pub require_officer : World → String → Client Unit
require_officer w channel = do
  role ← gets (own_role w channel)
  refuse_if (not (is_officer role)) permission_denied

-- GetHistory
unfoldable pub get_history : World → String → Client (List Storage.Message)
get_history w target = checking (get_messages (machine_of w) target 50)

-- Seen in the last five minutes is online.
pub record Presence : Type 0 where
  pub node_id : String
  pub role : String
  pub is_online : Bool

unfoldable pub get_channel_members : World → String → Client (List Presence)
get_channel_members w channel = do
  members ← checking (Queries.get_channel_members (machine_of w) channel)
  pure (
      map
        (λ m. record {
          node_id = m.node_id;
          role = m.role;
          is_online = ltb w.now (m.last_seen + 300_000_000_000);
        })
        members)

module _ (lib : Library) where
  -- A failed encryption sends an empty content.
  abbrev pub broadcast : World → String → MessageType → List ℕ → List ℕ → Client Unit
  broadcast w channel kind key bytes = do
    id ←
        send_payload lib w channel
          (record { kind = kind; content = bytes_or_nil (encrypt lib.e2e w.nonce key bytes) })
    pure tt

  abbrev broadcast_found : World → String → MessageType → List ℕ → Option (List ℕ) → Client Unit
  broadcast_found w channel kind bytes none = fail key_not_found
  broadcast_found w channel kind bytes (some key) = broadcast w channel kind key bytes

  -- The page is saved whether there is a key for the channel or not.
  unfoldable pub save_wiki_page : World → String → String → String → Client Unit
  unfolding format_int
  save_wiki_page w channel title content =
      let page : WikiPage = record {
        id = String.◌++◌ "wiki_" (format_int w.now);
        channel_id = channel;
        title = title;
        content = content;
        updated_at = w.now;
      } in
      do
        checking (Storage.save_wiki_page (machine_of w) page)
        key ← channel_key w channel
        broadcast_found w channel wiki_update (lib.pages.marshal page) key

  unfoldable pub set_channel_config : World → String → String → String → Client Unit
  unfolding require_officer
  set_channel_config w channel key val = do
    require_officer w channel
    checking (Storage.set_channel_config (machine_of w) channel key val)
    bytes ← channel_key w channel
    broadcast_found w channel metadata_update
        (lib.configs.marshal (record { channel_id = channel; key = key; value = val })) bytes

  unfoldable pub create_tag : World → String → String → String → Client Unit
  unfolding require_officer format_int
  create_tag w channel name color =
      let tag : ChannelTag = record {
        id = String.◌++◌ "tag-" (format_int w.now);
        channel_id = channel;
        name = name;
        color = color;
      } in
      do
        require_officer w channel
        checking (Storage.create_tag (machine_of w) tag)
        key ← get_channel_key_bytes w channel
        broadcast w channel tag_created key (lib.tags.marshal tag)

  unfoldable pub tag_message : World → String → String → String → Client Unit
  tag_message w channel message tag = do
    node_id ← gets (λ c. c.node_id)
    checking (
        add_message_tag (machine_of w) (record {
          message_id = message;
          tag_id = tag;
          tagged_by = node_id;
          tag_name = "";
          tag_color = "";
        }))
    key ← get_channel_key_bytes w channel
    broadcast w channel tag_added key (
        lib.message_tags.marshal (record {
          message_id = message;
          tag_id = tag;
          tagged_by = node_id;
          tag_name = "";
          tag_color = "";
        }))
