-- ===== src/Nodes/Database.antt =====
-- The tables of internal/repository/postgres/node_repository.go and the statements on them. A table is
-- its rows by their primary key; the constraints are those of CreateTables.
use enxame.Base.{
  ℕ, String, Bool, true, false, not, ◌&&◌, ◌||◌, List, [], ◌∷◌, Option, none, some, leb, ltb,
  if◌then◌else◌, is_some, length, ◌++◌, ◌==◌ as nat_eq,
}
use enxame.Base.Text.{◌==◌}
use enxame.Base.Dict.{Dict, lookup, insert, has}
use enxame.Base.Exec.{Outcome, ok, err, Exec, ◌>>=◌, ◌>>◌, pure, fail, gets, modify, refuse_if}
use enxame.Nodes.Types.{
  Identity, Node, NodeBan, ContentBan, GlobalModerator, ModerationAction, CoreError,
  database_failed,
}
use Prim.Native.String.{count}
pub mod Peers

pub record NodeRow : Type 0 where
  pub public_key : List ℕ
  pub node_type : ℕ
  pub version : String
  pub region : String
  pub capabilities : List String
  pub first_seen_at : ℕ
  pub last_seen_at : ℕ
  pub banned : Bool
  pub ban_reason : Option String
  pub ban_expires_at : Option ℕ

pub record AuditEntry : Type 0 where
  pub timestamp : ℕ
  pub requester_id : String
  pub action : String
  pub target_id : String
  pub channel_id : String
  pub signature : List ℕ

pub record ClusterPeer : Type 0 where
  pub peer_id : String
  pub address : String
  pub public_key : List ℕ
  pub status : String
  pub last_seen : ℕ

pub record Database : Type 0 where
  pub nodes : Dict NodeRow
  pub global_moderators : Dict GlobalModerator
  pub moderation_actions : Dict ModerationAction
  pub content_bans : Dict ContentBan
  pub governance_audit_log : List AuditEntry
  pub cluster_peers : Dict ClusterPeer

-- The tables as CreateTables makes them.
unfoldable pub create_tables : Database
create_tables = record {
  nodes = [];
  global_moderators = [];
  moderation_actions = [];
  content_bans = [];
  governance_audit_log = [];
  cluster_peers = [];
}

-- The statements of one call, each of which may fail for reasons outside the program.
pub data Statement : Type 0 where
  upsert_node_row select_node select_ban update_ban clear_ban : Statement
  insert_action insert_content_ban select_content_ban : Statement
  select_moderator insert_moderator insert_audit : Statement
  upsert_peer_row select_peer select_active_peers update_peer select_all_nodes count_nodes :
      Statement

-- What the machine supplies to a call: the time, and the statements that fail.
pub record Machine : Type 0 where
  pub now : ℕ
  pub fails : Statement → Bool

abbrev pub Repository : Type 0 → Type 0
Repository A = Exec Database CoreError A

-- VARCHAR(n): a longer value is refused. PostgreSQL would cut one whose excess is only spaces; here that
-- is refused as well.
abbrev pub fits : ℕ → String → Bool
fits n s = leb (count s) n

-- A statement that may fail, and that a constraint may refuse.
abbrev pub statement : Machine → Statement → Bool → Repository Unit
statement machine st allowed = refuse_if (machine.fails st || not allowed) database_failed

abbrev pub fresh_row : ℕ → Node → NodeRow
fresh_row now n = record {
  public_key = n.identity.public_key;
  node_type = n.node_type;
  version = n.version;
  region = n.region;
  capabilities = n.capabilities;
  first_seen_at = n.registered_at;
  last_seen_at = now;
  banned = false;
  ban_reason = none;
  ban_expires_at = none;
}

-- ON CONFLICT (node_id) DO UPDATE
abbrev pub upserted : ℕ → Node → Option NodeRow → NodeRow
upserted now n none = fresh_row now n
upserted now n (some row) = record row {
  last_seen_at = now;
  version = n.version;
  region = n.region;
  capabilities = n.capabilities;
}

unfoldable pub upsert_node : Machine → Node → Repository Unit
upsert_node machine n = do
  statement machine upsert_node_row
      ((fits 64 n.identity.node_id && fits 32 n.version) && fits 32 n.region)
  modify (λ db. record db {
    nodes =
        insert n.identity.node_id (upserted machine.now n (lookup n.identity.node_id db.nodes))
          db.nodes;
  })

-- Neither the status nor the endpoints are in the table.
abbrev pub node_of_row : String → NodeRow → Node
node_of_row id r = record {
  identity = record { node_id = id; public_key = r.public_key; signature = [] };
  node_type = r.node_type;
  status = 0;
  endpoints = [];
  version = r.version;
  capabilities = r.capabilities;
  region = r.region;
  registered_at = r.first_seen_at;
  last_seen = r.last_seen_at;
}

unfoldable pub get_node : Machine → String → Repository (Option Node)
get_node machine id = do
  statement machine select_node true
  gets (λ db. elim (lookup id db.nodes) [ none ↦ none | some r ↦ some (node_of_row id r) ])

-- UPDATE nodes SET … WHERE node_id = $1: without such a row nothing happens, and that is no error.
abbrev set_row : String → (NodeRow → NodeRow) → Option NodeRow → Database → Database
set_row id f none db = db
set_row id f (some r) db = record db { nodes = insert id (f r) db.nodes }

abbrev pub update_row : String → (NodeRow → NodeRow) → Database → Database
update_row id f db = set_row id f (lookup id db.nodes) db

unfoldable pub ban_node : Machine → NodeBan → Repository Unit
ban_node machine ban = do
  statement machine update_ban true
  modify (
      update_row ban.banned_node_id (λ r. record r {
        banned = true;
        ban_reason = some ban.reason;
        ban_expires_at = ban.expires_at;
      }))

unfoldable pub unban_node : Machine → String → Repository Unit
unban_node machine id = do
  statement machine clear_ban true
  modify
      (update_row id (λ r. record r { banned = false; ban_reason = none; ban_expires_at = none }))

abbrev pub is_over : ℕ → Option ℕ → Bool
is_over now none = false
is_over now (some e) = ltb e now

abbrev pub or_blank : Option String → String
or_blank none = ""
or_blank (some s) = s

-- A ban that is over is cleared, and an error of that statement is ignored.
read_ban : Machine → String → Option NodeRow → Repository (Bool × String)
unfolding unban_node
read_ban machine id none = pure (false, "")
read_ban machine id (some r) =
    if r.banned && is_over machine.now r.ban_expires_at
    then (λ db. (ok (false, ""), (unban_node machine id db).1))
    else pure (r.banned, or_blank r.ban_reason)

unfoldable pub is_node_banned : Machine → String → Repository (Bool × String)
unfolding read_ban
is_node_banned machine id = do
  statement machine select_ban true
  row ← gets (λ db. lookup id db.nodes)
  read_ban machine id row

-- The primary key is new, and the moderator exists.
unfoldable pub save_moderation_action : Machine → ModerationAction → Repository Unit
save_moderation_action machine a = do
  known ← gets (λ db. has a.moderator.moderator_id db.global_moderators)
  taken ← gets (λ db. has a.action_id db.moderation_actions)
  statement machine insert_action (
      ((fits 64 a.action_id && fits 128 a.target_id) && fits 64 a.moderator.moderator_id)
      && (known && not taken))
  modify (λ db. record db { moderation_actions = insert a.action_id a db.moderation_actions })

abbrev recategorized : ContentBan → Option ContentBan → ContentBan
recategorized b none = b
recategorized b (some old) = record old { reason = b.reason; category = b.category }

-- The moderator must exist for a row that is new.
unfoldable pub save_content_ban : Machine → ContentBan → Repository Unit
save_content_ban machine b = do
  known ← gets (λ db. has b.moderator_id db.global_moderators)
  old ← gets (λ db. lookup b.content_hash db.content_bans)
  statement machine insert_content_ban (
      ((fits 128 b.content_hash && fits 64 b.category) && fits 64 b.moderator_id)
      && (is_some old || known))
  modify (λ db. record db {
    content_bans = insert b.content_hash (recategorized b old) db.content_bans;
  })

unfoldable pub is_content_banned : Machine → String → Repository Bool
is_content_banned machine hash = do
  statement machine select_content_ban true
  gets (λ db. has hash db.content_bans)

unfoldable pub get_moderator : Machine → String → Repository (Option GlobalModerator)
get_moderator machine id = do
  statement machine select_moderator true
  gets (λ db. lookup id db.global_moderators)

abbrev same_list : List ℕ → List ℕ → Bool
same_list [] [] = true
same_list [] (y ∷ ys) = false
same_list (x ∷ xs) [] = false
same_list (x ∷ xs) (y ∷ ys) = if nat_eq x y then same_list xs ys else false

abbrev has_public_key : List ℕ → Dict GlobalModerator → Bool
has_public_key key [] = false
has_public_key key ((id, m) ∷ rest) = same_list key m.public_key || has_public_key key rest

-- The id of a moderator is new, and so is its public key.
unfoldable pub add_moderator : Machine → GlobalModerator → Repository Unit
add_moderator machine m = do
  id_taken ← gets (λ db. has m.moderator_id db.global_moderators)
  key_taken ← gets (λ db. has_public_key m.public_key db.global_moderators)
  statement machine insert_moderator
      ((fits 64 m.moderator_id && fits 128 m.name) && (not id_taken && not key_taken))
  modify (λ db. record db { global_moderators = insert m.moderator_id m db.global_moderators })

unfoldable pub log_governance_action :
    Machine → String → String → String → String → List ℕ → Repository Unit
log_governance_action machine requester action target channel signature = do
  statement machine insert_audit
      (((fits 64 requester && fits 32 action) && fits 64 target) && fits 64 channel)
  modify (λ db. record db {
    governance_audit_log =
        db.governance_audit_log
        ++ record {
          timestamp = machine.now;
          requester_id = requester;
          action = action;
          target_id = target;
          channel_id = channel;
          signature = signature;
        }
          ∷ [];
  })

unfoldable pub get_total_nodes_count : Machine → Repository ℕ
get_total_nodes_count machine = do statement machine count_nodes true; gets (λ db. length db.nodes)
