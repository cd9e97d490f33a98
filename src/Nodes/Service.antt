-- ===== src/Nodes/Service.antt =====
-- The service of nodes: internal/service/node_service.go, over Redis and the tables.
use enxame.Base.{ℕ, ◌/◌, String, Bool, ◌||◌, List, [], Option, none, some, ◌==◌, ltb, if◌then◌else◌}
use enxame.Base.Exec.{Outcome, ok, err, panic, Exec, ◌>>=◌, ◌>>◌, pure, fail}
use enxame.Crypto.{Primitives, verify_node_identity}
use enxame.Nodes.Types.{
  Node, Registration, CoreError, invalid_identity, node_not_found, node_is_banned,
}
use enxame.Nodes.Redis.{Redis}
use enxame.Nodes.Manager.{NodeJson, find_node, register, refresh_heartbeat, remove_node}
use enxame.Nodes.Relays.{get_active_relays}
use enxame.Nodes.Database.{
  Database, Machine, is_node_banned, upsert_node, get_node, log_governance_action,
}

-- The two stores that the services share.
pub record World (Store : Type 0) : Type 0 where
  pub store : Store
  pub db : Database

-- What a core server is built with: its configuration and the libraries.
pub record Platform (Store : Type 0) : Type 0 where
  pub redis : Redis Store
  pub json : NodeJson
  pub crypto : Primitives
  pub shuffle : List Node → List Node
  pub heartbeat_ttl : ℕ
  pub max_relays : ℕ

module _ {Store : Type 0} (p : Platform Store) where
  abbrev pub Service : Type 0 → Type 0
  Service A = Exec (World Store) CoreError A

  abbrev pub on_store : {A : Type 0} → Exec Store CoreError A → Service A
  on_store m w = ((m w.store).0, record w { store = (m w.store).1 })

  abbrev pub on_db : {A : Type 0} → Exec Database CoreError A → Service A
  on_db m w = ((m w.db).0, record w { db = (m w.db).1 })

  -- An error that is only logged, or not looked at.
  abbrev settled : Outcome CoreError Unit → Outcome CoreError Unit
  settled panic = panic
  settled _ = ok tt

  abbrev pub ignoring : Service Unit → Service Unit
  ignoring m w = (settled (m w).0, (m w).1)

  abbrev pub refuse_banned : Bool × String → Service Unit
  refuse_banned (banned, reason) = if banned then fail (node_is_banned reason) else pure tt

  abbrev pub check_identity : Registration → Service Unit
  check_identity reg =
      elim (verify_node_identity p.crypto reg.identity.node_id reg.identity.public_key
        reg.identity.signature) [ none ↦ pure tt | some e ↦ fail invalid_identity ]

  abbrev pub node_from : ℕ → Registration → Node
  node_from now reg = record {
    identity = reg.identity;
    node_type = reg.node_type;
    status = 1;
    endpoints = reg.endpoints;
    version = reg.version;
    capabilities = reg.capabilities;
    region = reg.region;
    registered_at = now;
    last_seen = now;
  }

  -- The relays that are suggested; none when they cannot be read.
  abbrev pub or_no_relays : Outcome CoreError (List Node) → Outcome CoreError (List Node)
  or_no_relays (ok relays) = ok relays
  or_no_relays (err e) = ok []
  or_no_relays panic = panic

  unfoldable pub check_ban : Machine → String → Service Unit
  check_ban machine id = do answer ← on_db (is_node_banned machine id); refuse_banned answer

  -- A registration that passed the checks. The callback for the peers of the cluster runs in a goroutine
  -- of its own, after this.
  unfoldable pub admit : Machine → Registration → Service (Node × List Node)
  admit machine reg = do
    on_store (register p.redis p.json p.heartbeat_ttl machine.now (node_from machine.now reg))
    ignoring (on_db (upsert_node machine (node_from machine.now reg)))
    relays ← on_store (λ s. (
      or_no_relays
          (get_active_relays p.redis p.json p.shuffle machine.now reg.region p.max_relays [] s),
      s,
    ))
    pure (node_from machine.now reg, relays)

  unfoldable pub register_node : Machine → Registration → Service (Node × List Node)
  unfolding check_ban admit
  register_node machine reg = do
    check_identity reg
    check_ban machine reg.identity.node_id
    admit machine reg

  abbrev pub refuse_missing : Option Node → Service Unit
  refuse_missing none = fail node_not_found
  refuse_missing (some n) = pure tt

  -- The seconds to the next heartbeat: half of the time to live.
  abbrev pub refresh : Machine → String → ℕ → Service ℕ
  refresh machine id status = do
    on_store (refresh_heartbeat p.redis p.json p.heartbeat_ttl machine.now id status)
    pure (p.heartbeat_ttl / 2000000000)

  unfoldable pub heartbeat : Machine → String → ℕ → Service ℕ
  unfolding check_ban
  heartbeat machine id status = do
    node ← on_store (λ s. (find_node p.redis p.json machine.now id s, s))
    refuse_missing node
    check_ban machine id
    refresh machine id status

  unfoldable pub active_relays_of : Machine → String → ℕ → List String → Service (List Node)
  active_relays_of machine region limit excluded w =
      let n = if limit == 0 || ltb p.max_relays limit then p.max_relays else limit in
      (get_active_relays p.redis p.json p.shuffle machine.now region n excluded w.store, w)

  abbrev or_stored : Machine → String → Option Node → Service (Option Node)
  or_stored machine id (some n) = pure (some n)
  or_stored machine id none = on_db (get_node machine id)

  unfoldable pub find : Machine → String → Service (Option Node)
  find machine id = do
    online ← on_store (λ s. (find_node p.redis p.json machine.now id s, s))
    or_stored machine id online

  unfoldable pub remove : Machine → String → Service Unit
  remove machine id = on_store (remove_node p.redis p.json machine.now id)

  unfoldable pub log_action : Machine → String → String → String → String → List ℕ → Service Unit
  log_action machine requester action target channel signature =
      on_db (log_governance_action machine requester action target channel signature)
