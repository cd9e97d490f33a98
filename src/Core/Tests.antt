-- ===== src/Core/Tests.antt =====
-- A core server on a Redis that keeps nothing.
use enxame.Base.{ℕ, ◌≡◌, refl, true, false, List, [], ◌∷◌, ◌++◌, none, some, map}
use enxame.Base.Exec.{ok}
use enxame.Auth.{unary}
use enxame.Base.Text.{has_suffix, contains}
use enxame.Base.Dict.{lookup}
use enxame.Crypto.{derive_node_id, verify_signature, verify_node_identity}
use enxame.Nodes.Types.{Node}
use enxame.Nodes.Redis.{missing, Redis}
use enxame.Nodes.Manager
use enxame.Nodes.Manager.{NodeJson}
use enxame.Nodes.Relays.{get_active_relays}
use enxame.Nodes.Database.{Machine, create_tables, is_node_banned, upsert_node}
use enxame.Nodes.Service
use enxame.Nodes.Service.{World, Platform}
use enxame.Core.{
  domain_node_to_pb, RegisterNodeRequest, RegisterNodeResponse, pb_node_type_to_domain,
}
use enxame.Core.Server.{registration_of, answer_register_node, call_register_node}
use enxame.Core.Answers.{call_register_node_lem}

abbrev redis : Redis Unit
redis = record {
  get = λ now k s. missing;
  set = λ now k bytes ttl s. (true, s);
  del = λ k s. (true, s);
  keys = λ now pattern s. none;
  zadd = λ k score member s. (true, s);
  zrem = λ k member s. (true, s);
  publish = λ channel bytes s. (true, s);
}

abbrev json : NodeJson
json = record { marshal = λ d. some []; unmarshal = λ b. none; marshal_event = λ e. none }

abbrev bytes : List ℕ
bytes = 0 ∷ 1 ∷ 2 ∷ 3 ∷ 4 ∷ 5 ∷ 6 ∷ 7 ∷ 8 ∷ 9 ∷ 10 ∷ 11 ∷ 12 ∷ 13 ∷ 14 ∷ 255 ∷ []

abbrev key : List ℕ
key = bytes ++ bytes

abbrev platform : Platform Unit
platform = record {
  redis = redis;
  json = json;
  crypto = record { sha256 = λ xs. xs; verify = λ k m s. true };
  shuffle = λ ns. ns;
  heartbeat_ttl = 30000000000;
  max_relays = 5;
}

abbrev machine : Machine
machine = record { now = 5; fails = λ st. false }

abbrev request : RegisterNodeRequest
request = record {
  identity = record {
    node_id = "000102030405060708090a0b0c0d0eff";
    public_key = key;
    signature = key ++ key;
  };
  node_type = 1;
  endpoints = [];
  version = "1";
  capabilities = [];
  region = "";
}

abbrev world : World Unit
world = record { store = tt; db = create_tables }

abbrev answer : RegisterNodeResponse
answer = record { success = true; heartbeat_interval_seconds = 30; suggested_relays = [] }

success : (call_register_node platform 30 (λ t. none) none machine request world).0 ≡ ok answer
unfolding call_register_node unary has_suffix derive_node_id verify_signature contains
    answer_register_node Service.register_node verify_node_identity is_node_banned lookup
    create_tables Manager.register pb_node_type_to_domain upsert_node get_active_relays
success = refl

call_register_node_lem_example :
    (node : Node) × (relays : List Node) × ((Service.register_node platform machine
        (registration_of request)
        world).0
      ≡ ok (node, relays))
    × (answer.suggested_relays ≡ map domain_node_to_pb relays)
call_register_node_lem_example =
    (call_register_node_lem platform 30 (λ t. none) none machine request world answer success
      refl).1
