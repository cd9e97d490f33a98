-- ===== src/Storage.antt =====
-- The database of a client: the tables of initSchema and the statements that write to them, in
-- pkg/storage/sqlite.go. A statement is a function on the tables; a machine says what the time is and
-- which statements fail.
use enxame.Base.{
  ℕ, ◌+◌, String, Bool, true, ◌&&◌, List, [], ◌∷◌, ◌++◌, Option, none, some, if◌then◌else◌, any,
}
use enxame.Base.Text.{◌==◌}
use enxame.Base.Dict.{Dict, lookup, insert}
use enxame.Base.Exec.{Exec, ◌>>◌, modify, refuse_if}
pub mod Queries
pub mod Order
pub mod History
mod Tests

pub record Message : Type 0 where
  pub id : ℕ
  pub message_id : String
  pub sender_id : String
  pub target : String
  pub content : String
  pub timestamp : ℕ

pub record Member : Type 0 where
  pub node_id : String
  pub channel_id : String
  pub role : String
  pub last_seen : ℕ

pub record WikiPage : Type 0 where
  pub id : String
  pub channel_id : String
  pub title : String
  pub content : String
  pub updated_at : ℕ

pub record ChannelTag : Type 0 where
  pub id : String
  pub channel_id : String
  pub name : String
  pub color : String

-- The fields that the query adds are columns of the other table.
pub record MessageTag : Type 0 where
  pub message_id : String
  pub tag_id : String
  pub tagged_by : String
  pub tag_name : String
  pub tag_color : String

pub record ChannelConfig : Type 0 where
  pub channel_id : String
  pub key : String
  pub value : String

-- A row of the table channels; NULL is `none`.
pub record ChannelRow : Type 0 where
  pub key_hex : String
  pub avatar : Option String

-- The messages stand by descending id. A table with one text as its key is a Dict.
pub record Storage : Type 0 where
  pub messages : List Message
  pub next_id : ℕ
  pub channels : Dict ChannelRow
  pub channel_members : List Member
  pub dm_sessions : Dict String
  pub wiki_pages : Dict WikiPage
  pub channel_config : List ChannelConfig
  pub system_config : Dict String
  pub channel_tags : Dict ChannelTag
  pub message_tags : List MessageTag

-- A query of one row finds none, or a statement fails.
pub data StorageError : Type 0 where
  sql_failed no_rows : StorageError

pub data Statement : Type 0 where
  insert_message select_messages replace_channel update_avatar select_key : Statement
  replace_dm_session select_dm_peer select_channels : Statement
  upsert_member_row select_members select_member : Statement
  upsert_wiki_page select_wiki_pages upsert_channel_config select_channel_config : Statement
  replace_tag select_tags insert_message_tag select_message_tags : Statement
  select_system_config upsert_system_config : Statement

pub record Machine : Type 0 where
  pub now : ℕ
  pub fails : Statement → Bool

abbrev pub Database : Type 0 → Type 0
Database A = Exec Storage StorageError A

-- The tables that initSchema creates.
abbrev pub new_storage : Storage
new_storage = record {
  messages = [];
  next_id = 1;
  channels = [];
  channel_members = [];
  dm_sessions = [];
  wiki_pages = [];
  channel_config = [];
  system_config = [];
  channel_tags = [];
  message_tags = [];
}

abbrev pub exec : Machine → Statement → (Storage → Storage) → Database Unit
exec machine st change = do refuse_if (machine.fails st) sql_failed; modify change

abbrev pub has_message_id : String → Message → Bool
has_message_id id m = m.message_id == id

-- INSERT OR IGNORE into a table in which message_id is unique.
unfoldable pub put_message : ℕ → String → String → String → String → Storage → Storage
put_message now id sender target content s =
    if any (has_message_id id) s.messages then s else record s {
      messages =
          record {
            id = s.next_id;
            message_id = id;
            sender_id = sender;
            target = target;
            content = content;
            timestamp = now;
          }
          ∷ s.messages;
      next_id = s.next_id + 1;
    }

unfoldable pub store_message : Machine → String → String → String → String → Database Unit
store_message machine id sender target content =
    exec machine insert_message (put_message machine.now id sender target content)

abbrev avatar_of : Option ChannelRow → Option String
avatar_of none = none
avatar_of (some row) = row.avatar

unfoldable pub save_channel_key : Machine → String → String → Database Unit
save_channel_key machine name key_hex = exec machine replace_channel λ s. record s {
  channels =
      insert name (record { key_hex = key_hex; avatar = avatar_of (lookup name s.channels) })
        s.channels;
}

abbrev set_avatar : String → String → Option ChannelRow → Dict ChannelRow → Dict ChannelRow
set_avatar name avatar none rows = rows
set_avatar name avatar (some row) rows = insert name (record row { avatar = some avatar }) rows

unfoldable pub update_channel_avatar : Machine → String → String → Database Unit
update_channel_avatar machine name avatar =
    exec machine update_avatar
      λ s. record s { channels = set_avatar name avatar (lookup name s.channels) s.channels }

unfoldable pub upsert_dm_session : Machine → String → String → Database Unit
upsert_dm_session machine dm_id peer_id =
    exec machine replace_dm_session
      λ s. record s { dm_sessions = insert dm_id peer_id s.dm_sessions }

-- ON CONFLICT(channel_id, node_id): an empty role keeps the old one.
unfoldable pub put_member : ℕ → String → String → String → List Member → List Member
put_member now channel node role [] =
    record { node_id = node; channel_id = channel; role = role; last_seen = now } ∷ []
put_member now channel node role (m ∷ ms) =
    if m.channel_id == channel && m.node_id == node
    then record m { last_seen = now; role = if role == "" then m.role else role } ∷ ms
    else m ∷ put_member now channel node role ms

unfoldable pub upsert_member : Machine → String → String → String → Database Unit
upsert_member machine channel node role =
    exec machine upsert_member_row
      λ s. record s { channel_members = put_member machine.now channel node role s.channel_members }

-- ON CONFLICT(id): the channel of the page stays.
abbrev merge_page : WikiPage → Option WikiPage → WikiPage
merge_page p none = p
merge_page p (some old) = record p { channel_id = old.channel_id }

unfoldable pub save_wiki_page : Machine → WikiPage → Database Unit
save_wiki_page machine p = exec machine upsert_wiki_page λ s. record s {
  wiki_pages = insert p.id (merge_page p (lookup p.id s.wiki_pages)) s.wiki_pages;
}

unfoldable pub put_config : String → String → String → List ChannelConfig → List ChannelConfig
put_config channel key val [] = record { channel_id = channel; key = key; value = val } ∷ []
put_config channel key val (c ∷ cs) =
    if c.channel_id == channel && c.key == key
    then record c { value = val } ∷ cs
    else c ∷ put_config channel key val cs

unfoldable pub set_channel_config : Machine → String → String → String → Database Unit
set_channel_config machine channel key val =
    exec machine upsert_channel_config
      λ s. record s { channel_config = put_config channel key val s.channel_config }

unfoldable pub create_tag : Machine → ChannelTag → Database Unit
create_tag machine t =
    exec machine replace_tag λ s. record s { channel_tags = insert t.id t s.channel_tags }

-- INSERT OR IGNORE into a table with the key (message_id, tag_id).
abbrev put_message_tag : MessageTag → List MessageTag → List MessageTag
put_message_tag mt [] = mt ∷ []
put_message_tag mt (x ∷ xs) =
    if x.message_id == mt.message_id && x.tag_id == mt.tag_id
    then x ∷ xs
    else x ∷ put_message_tag mt xs

unfoldable pub add_message_tag : Machine → MessageTag → Database Unit
add_message_tag machine mt =
    exec machine insert_message_tag
      λ s. record s { message_tags = put_message_tag mt s.message_tags }

unfoldable pub set_config : Machine → String → String → Database Unit
set_config machine key val =
    exec machine upsert_system_config
      λ s. record s { system_config = insert key val s.system_config }
