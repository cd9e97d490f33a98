-- ===== src/Nodes/Tests.antt =====
-- A core server on a Redis that is a list of keys, with one node and one moderator.
use enxame.Base.{
  ℕ, ◌+◌, String, ◌≡◌, ◌≢◌, refl, true, false, List, [], ◌∷◌, Option, none, some, arith, eq_iff,
  eq_refl, ◌++◌, ltb, if◌then◌else◌, length,
}
use enxame.Base.Dict.{Dict, lookup, insert, delete, has, lookup-insert, lookup-delete}
use enxame.Base.Dict as Dict
use enxame.Base.Exec.{ok}
use enxame.Crypto.{
  Primitives, derive_node_id, is_master_key, verify_master_signature, verify_signature,
}
use enxame.Crypto.Keys.{new_verifier, add_keys, add_key, hex_decode, IsListed}
use enxame.Nodes.Types.{Node, ModerationAction, Registration}
use enxame.Nodes.Redis.{Reply, missing, found, Redis, RedisLaws, IsAbsent}
use enxame.Nodes.Manager.{
  NodeData, NodeJson, node_key, publish_moderation_event, remove_node, find_node, get_data,
}
use enxame.Nodes.Database.{NodeRow, Machine, create_tables, ban_node, save_moderation_action}
use enxame.Nodes.Service.{World, Platform, register_node, check_ban}
use enxame.Nodes.Relays.{get_active_relays}
use enxame.Nodes.Relays.Choice.{get_active_relays_lem}
use mathlib.Core.List.Perm
use enxame.Nodes.Moderation.{
  Signing, moderate_node, verify_action, serialize_action, ban_content, admin_ban_node,
}
use enxame.Nodes.Moderation.Safety.{registers, run}
use enxame.Nodes.Moderation.Exclusion.{is_ok, moderate_node-run}
use enxame.Nodes.Moderation.Content.{ban_content-run}
use enxame.Nodes.Moderation.Limits.{check_ban-admin_ban_node, moderate_node-new_verifier}

abbrev Keys : Type 0
Keys = Dict (List ℕ × ℕ)

-- A key answers until its time is over.
abbrev answer : ℕ → Option (List ℕ × ℕ) → Reply
answer now none = missing
answer now (some (bytes, until)) = if ltb now until then found bytes else missing

abbrev redis : Redis Keys
redis = record {
  get = λ now k s. answer now (lookup k s);
  set = λ now k bytes ttl s. (true, insert k (bytes, now + ttl) s);
  del = λ k s. (true, delete k s);
  keys = λ now pattern s. some (Dict.keys s);
  zadd = λ k score member s. (true, s);
  zrem = λ k member s. (true, s);
  publish = λ channel bytes s. (true, s);
}

lookup-insert_other :
    (j k : String) (v : List ℕ × ℕ) (s : Keys) → j ≢ k → lookup j (insert k v s) ≡ lookup j s
lookup-insert_other j k v s h = ground (arith, lookup-insert k j v s, eq_iff k j)

lookup-delete_other : (j k : String) (s : Keys) → j ≢ k → lookup j (delete k s) ≡ lookup j s
lookup-delete_other j k s h = ground (arith, lookup-delete k j s, eq_iff k j)

deleted : (k : String) (s : Keys) → IsAbsent redis k (delete k s)
deleted k s t b = ground (arith, lookup-delete k k s, eq_refl k)

redis_laws : RedisLaws redis
redis_laws = record {
  get_set = λ t now ttl j k b s h. rw (lookup-insert_other j k (b, now + ttl) s h) refl;
  get_del = λ t j k s h. rw (lookup-delete_other j k s h) refl;
  absent_del = λ k s absent. deleted k s;
  del_absent = λ k s works. deleted k s;
  get_zadd = λ t score j k member s h. refl;
  get_zrem = λ t j k member s h. refl;
  get_publish = λ t j channel b s. refl;
}

abbrev stored : NodeData
stored = record {
  node_id = "n";
  public_key = [];
  node_type = 2;
  status = 1;
  endpoints = [];
  version = "1";
  capabilities = [];
  region = "";
  registered_at = 0;
  last_seen = 0;
}

abbrev json : NodeJson
json = record { marshal = λ d. some []; unmarshal = λ b. some stored; marshal_event = λ e. some [] }

abbrev bytes : List ℕ
bytes = 0 ∷ 1 ∷ 2 ∷ 3 ∷ 4 ∷ 5 ∷ 6 ∷ 7 ∷ 8 ∷ 9 ∷ 10 ∷ 11 ∷ 12 ∷ 13 ∷ 14 ∷ 255 ∷ []

abbrev key : List ℕ
key = bytes ++ bytes

abbrev key_text : String
key_text = "000102030405060708090a0b0c0d0eff000102030405060708090a0b0c0d0eff"

abbrev key_id : String
key_id = "000102030405060708090a0b0c0d0eff"

-- Primitives under which every signature is good.
abbrev primitives : Primitives
primitives = record { sha256 = λ xs. xs; verify = λ k m s. true }

abbrev platform : Platform Keys
platform = record {
  redis = redis;
  json = json;
  crypto = primitives;
  shuffle = λ ns. ns;
  heartbeat_ttl = 30000000000;
  max_relays = 5;
}

abbrev signing : Signing
signing = record { marshal = λ s. some s.action_id; seconds = λ d. d }

abbrev master_keys : Dict (List ℕ)
master_keys = (key_id, key) ∷ []

abbrev machine : ℕ → Machine
machine now = record { now = now; fails = λ st. false }

abbrev row : NodeRow
row = record {
  public_key = key;
  node_type = 2;
  version = "1";
  region = "";
  capabilities = [];
  first_seen_at = 1;
  last_seen_at = 1;
  banned = false;
  ban_reason = none;
  ban_expires_at = none;
}

-- A node that is in the table and online.
abbrev world : World Keys
world = record {
  store = (node_key "n", (key, 100)) ∷ [];
  db = record create_tables { nodes = ("n", row) ∷ [] };
}

abbrev ban : String → ModerationAction
ban id = record {
  action_id = "a";
  event_type = 1;
  target_id = id;
  reason = "spam";
  duration = 50;
  moderator = record {
    moderator_id = "m";
    public_key = key;
    name = "m";
    created_at = 0;
    active = true;
  };
  signature = key ++ key;
  created_at = 0;
}

abbrev registration : String → String → Registration
registration id version = record {
  identity = record { node_id = id; public_key = key; signature = key ++ key };
  node_type = 2;
  endpoints = [];
  version = version;
  capabilities = [];
  region = "";
}

moderate_node-run_example :
    is_ok
      (register_node platform (machine 30) (registration "n" "1") (
        run platform signing master_keys
          (moderate_node platform signing master_keys (machine 10) "e" (ban "n") world).1
          (registers (machine 20) (registration "n" "1") ∷ []))).0
    ≡ false
unfolding create_tables moderate_node verify_action serialize_action ban_node remove_node find_node
    get_data publish_moderation_event save_moderation_action verify_master_signature
    verify_signature derive_node_id is_master_key lookup insert delete
moderate_node-run_example =
    (moderate_node-run platform signing master_keys redis_laws (machine 10) "e" (ban "n") world
      (registers (machine 20) (registration "n" "1") ∷ []) (machine 30) (registration "n" "1") 1
      (λ k s. refl) refl refl (refl, tt) refl refl).0

ban_content-run_example :
    (ban_content platform signing master_keys (machine 10) "e" (ban "hash") "spam" (
      run platform signing master_keys
        (record { store = []; db = create_tables })
        (registers (machine 5) (registration key_id "1") ∷ []))).0
    ≢ ok tt
ban_content-run_example =
    (ban_content-run platform signing master_keys []
      (registers (machine 5) (registration key_id "1") ∷ []) (machine 10) "e" (ban "hash") "spam").0

check_ban-admin_ban_node_example :
    (check_ban platform
      (machine 3000000000)
      "n"
      (check_ban platform
        (machine 3000000006)
        "n"
        (admin_ban_node platform (machine 5) "n" "spam" 3 world).1).1).0
    ≡ ok tt
unfolding create_tables lookup
check_ban-admin_ban_node_example =
    (check_ban-admin_ban_node platform (machine 5) (machine 7) (machine 3000000006)
      (machine 3000000000) "n" "spam" 3 world refl (omega arith) (omega arith) refl (omega arith)
      refl (omega arith) refl refl refl).3

moderate_node-new_verifier_example :
    (text : String) × (serialize_action platform signing master_keys (ban "n") ≡ some text)
    × (IsListed key (key_text ∷ []))
    × (length (key ++ key) ≡ 64)
    × (true ≡ true)
unfolding new_verifier add_keys add_key hex_decode create_tables moderate_node verify_action
    serialize_action ban_node remove_node find_node get_data publish_moderation_event
    save_moderation_action verify_master_signature verify_signature derive_node_id is_master_key
    lookup insert delete
moderate_node-new_verifier_example =
    moderate_node-new_verifier platform signing (key_text ∷ []) master_keys (machine 10) "e"
      (ban "n") world refl refl

get_active_relays_lem_example :
    (ns : List Node) × (get_active_relays redis json (λ ns. ns) 20 "eu" 1 ("x" ∷ []) world.store
      ≡ ok ns)
get_active_relays_lem_example =
    let chosen =
      get_active_relays_lem redis json (λ ns. ns) (λ ns. Perm.rfl) 20 "eu" 1 ("x" ∷ []) world.store
        (node_key "n" ∷ []) refl in
    (chosen.0, chosen.2)
