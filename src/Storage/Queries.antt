-- ===== src/Storage/Queries.antt =====
-- The methods of pkg/storage/sqlite.go that read. A row that cannot be scanned is skipped by the source;
-- here every row is scanned.
use enxame.Base.{
  ℕ, String, Bool, ◌&&◌, List, [], ◌∷◌, ◌++◌, Option, none, some, if◌then◌else◌, filter_by, take,
  map, ltb,
}
use enxame.Base.Text.{◌==◌}
use enxame.Base.Dict.{Dict, lookup, insert, keys}
use enxame.Base.Exec.{◌>>=◌, ◌>>◌, pure, fail, gets, refuse_if}
use enxame.Storage.{
  Message, Member, WikiPage, ChannelTag, MessageTag, ChannelConfig, sql_failed, no_rows, Statement,
  select_messages, select_key, select_dm_peer, select_channels, select_members, select_member,
  select_wiki_pages, select_channel_config, select_tags, select_message_tags, select_system_config,
  Machine, Storage, Database,
}
use enxame.Storage.Order.{is_after, sort_by}
use mathlib.Core.List.{reverse}

abbrev query : {A : Type 0} → Machine → Statement → (Storage → A) → Database A
query machine st select = do refuse_if (machine.fails st) sql_failed; gets select

abbrev returned : {A : Type 0} → Option A → Database A
returned none = fail no_rows
returned (some r) = pure r

-- QueryRow and Scan: an error if there is no row.
abbrev query_row : {A : Type 0} → Machine → Statement → (Storage → Option A) → Database A
query_row machine st select = do
  refuse_if (machine.fails st) sql_failed
  row ← gets select
  returned row

-- What GetMessages selects and scans of a row: the id of the message is not among it and stays empty.
abbrev pub scanned : Message → Message
scanned m = record m { message_id = "" }

-- The rows by descending id, as many as the limit, and the loop that reverses them.
unfoldable pub get_messages : Machine → String → ℕ → Database (List Message)
get_messages machine target limit =
    query machine select_messages
      λ s. reverse (map scanned (take limit (filter_by (λ m. m.target == target) s.messages)))

unfoldable pub get_channel_key : Machine → String → Database String
get_channel_key machine name =
    query_row machine select_key
      λ s. elim (lookup name s.channels) [ none ↦ none | some row ↦ some row.key_hex ]

unfoldable pub get_dm_peer : Machine → String → Database String
get_dm_peer machine dm_id = query_row machine select_dm_peer λ s. lookup dm_id s.dm_sessions

-- ORDER BY name
unfoldable pub get_all_channels : Machine → Database (List String)
get_all_channels machine =
    query machine select_channels λ s. sort_by (λ a b. is_after a b) (keys s.channels)

-- ORDER BY role DESC, last_seen DESC
abbrev follows_member : Member → Member → Bool
follows_member a b =
    if a.role == b.role then ltb a.last_seen b.last_seen else is_after b.role a.role

unfoldable pub get_channel_members : Machine → String → Database (List Member)
get_channel_members machine channel =
    query machine select_members
      λ s. sort_by follows_member (filter_by (λ m. m.channel_id == channel) s.channel_members)

unfoldable pub find_member : String → String → List Member → Option Member
find_member channel node [] = none
find_member channel node (m ∷ ms) =
    if m.channel_id == channel && m.node_id == node then some m else find_member channel node ms

unfoldable pub get_member : Machine → String → String → Database Member
unfolding find_member
get_member machine channel node =
    query_row machine select_member λ s. find_member channel node s.channel_members

abbrev values {ℓ} : {A : Type ℓ} → Dict A → List A
values [] = []
values ((key, x) ∷ rows) = x ∷ values rows

-- ORDER BY title
unfoldable pub get_wiki_pages : Machine → String → Database (List WikiPage)
get_wiki_pages machine channel = query machine select_wiki_pages λ s.
    sort_by (λ a b. is_after a.title b.title)
      (filter_by (λ p. p.channel_id == channel) (values s.wiki_pages))

abbrev find_config : String → String → List ChannelConfig → String
find_config channel key [] = ""
find_config channel key (c ∷ cs) =
    if c.channel_id == channel && c.key == key then c.value else find_config channel key cs

-- No row is the empty text.
unfoldable pub get_channel_config : Machine → String → String → Database String
get_channel_config machine channel key =
    query machine select_channel_config λ s. find_config channel key s.channel_config

unfoldable pub get_tags : Machine → String → Database (List ChannelTag)
get_tags machine channel =
    query machine select_tags λ s. filter_by (λ t. t.channel_id == channel) (values s.channel_tags)

-- The tags of messages whose tag is one of the channel, with its name and color.
abbrev join_tag : String → MessageTag → Option ChannelTag → List MessageTag → List MessageTag
join_tag channel mt none rest = rest
join_tag channel mt (some t) rest =
    if t.channel_id == channel
    then record mt { tag_name = t.name; tag_color = t.color } ∷ rest
    else rest

abbrev join_tags : String → Dict ChannelTag → List MessageTag → List MessageTag
join_tags channel tags [] = []
join_tags channel tags (mt ∷ mts) =
    join_tag channel mt (lookup mt.tag_id tags) (join_tags channel tags mts)

abbrev tags_of : Option (List MessageTag) → List MessageTag
tags_of none = []
tags_of (some mts) = mts

-- result[mt.MessageID] = append(result[mt.MessageID], mt)
abbrev group_tags : List MessageTag → Dict (List MessageTag) → Dict (List MessageTag)
group_tags [] result = result
group_tags (mt ∷ mts) result =
    group_tags mts (insert mt.message_id (tags_of (lookup mt.message_id result) ++ mt ∷ []) result)

unfoldable pub get_message_tags : Machine → String → Database (Dict (List MessageTag))
get_message_tags machine channel =
    query machine select_message_tags
      λ s. group_tags (join_tags channel s.channel_tags s.message_tags) []

abbrev text_or_empty : Option String → String
text_or_empty none = ""
text_or_empty (some val) = val

unfoldable pub get_config : Machine → String → Database String
get_config machine key =
    query machine select_system_config λ s. text_or_empty (lookup key s.system_config)
