-- ===== src/Cluster/Membership.antt =====
-- Who is a member of the cluster, after any requests.
use enxame.Cluster.Peers.{
  IsKeyed, insert-IsKeyed, lookup-IsKeyed, active_peers_pending, active_peers_member,
}
use enxame.Base.{
  String, ◌≡◌, ◌≢◌, refl, sym, subst, true, false, List, [], ◌∷◌, Option, none, some, arith,
  eq_refl, Option-cases, Bool-cases, inl, inr, ◌⊎◌, All, map,
}
use enxame.Base.Text.{◌==◌}
use enxame.Base.Dict.{lookup, insert, Distinct, lookup-insert, insert-Distinct}
use enxame.Base.Exec.{ok}
use enxame.Nodes.Database.{
  Database, ClusterPeer, Machine, create_tables, select_peer, update_peer, select_active_peers,
}
use enxame.Nodes.Database.Peers.{
  active_peers, upsert_cluster_peer, get_cluster_peer, get_active_cluster_peers,
  update_cluster_peer_status,
}
use enxame.Cluster.{PeerInfo, pending_peer, request_join, approve_peer, get_cluster_nodes, info_of}
use mathlib.Core.List.{Memᴰ}
use mathlib.Core.List.Memᴰ.{tail}
use mathlib.Core.List.Memᴰ

-- The requests that change the table of peers.
pub data Call : Type 0 where
  joins : Machine → Option PeerInfo → Call
  approves : Machine → String → Call

unfoldable pub step : Database → Call → Database
step db (joins machine peer) = (request_join machine peer db).1
step db (approves machine id) = (approve_peer machine id db).1

unfoldable pub run : Database → List Call → Database
run db [] = db
run db (c ∷ cs) = run (step db c) cs

record IsTable (db : Database) : Type 0 where
  keyed : IsKeyed db.cluster_peers
  distinct : Distinct db.cluster_peers

insert-IsTable :
    (db : Database) (id : String) (p : ClusterPeer)
    → p.peer_id ≡ id
    → IsTable db
    → IsTable (record db { cluster_peers = insert id p db.cluster_peers })
insert-IsTable db id p own h = record {
  keyed = insert-IsKeyed id p db.cluster_peers own h.keyed;
  distinct = insert-Distinct id p db.cluster_peers h.distinct;
}

request_join_cases :
    (machine : Machine) (p : PeerInfo) (db : Database)
    → ((request_join machine (some p) db).1 ≡ db)
      ⊎ ((request_join machine (some p) db).1 ≡ record db {
        cluster_peers = insert p.peer_id (pending_peer machine.now p) db.cluster_peers;
      })
unfolding request_join upsert_cluster_peer
request_join_cases machine p db = ground arith

abbrev activated : Machine → String → ClusterPeer → Database → Database
activated machine id p db = record db {
  cluster_peers =
      insert id (record p { status = "active"; last_seen = machine.now }) db.cluster_peers;
}

approve_peer_found :
    (machine : Machine) (id : String) (p : ClusterPeer) (db : Database)
    → lookup id db.cluster_peers ≡ some p
    → ((approve_peer machine id db).1 ≡ db)
      ⊎ ((approve_peer machine id db).1 ≡ activated machine id p db)
unfolding approve_peer get_cluster_peer update_cluster_peer_status
approve_peer_found machine id p db found = ground (arith, found)

approve_peer_absent :
    (machine : Machine) (id : String) (db : Database)
    → lookup id db.cluster_peers ≡ none
    → (approve_peer machine id db).1 ≡ db
unfolding approve_peer get_cluster_peer
approve_peer_absent machine id db absent = ground (arith, absent)

approve_peer_cases :
    (machine : Machine) (id : String) (db : Database)
    → ((approve_peer machine id db).1 ≡ db)
      ⊎ ((p : ClusterPeer) × (lookup id db.cluster_peers ≡ some p)
          × ((approve_peer machine id db).1 ≡ activated machine id p db))
approve_peer_cases machine id db = elim (Option-cases (lookup id db.cluster_peers)) [
  | inl absent ↦ inl (approve_peer_absent machine id db absent)
  | inr (p, found) ↦ elim (approve_peer_found machine id p db found) [
    | inl same ↦ inl same
    | inr set ↦ inr (p, found, set)
  ]
]

step-IsTable : (db : Database) (c : Call) → IsTable db → IsTable (step db c)
unfolding step request_join
step-IsTable db (joins machine none) h = h
step-IsTable db (joins machine (some p)) h = elim (request_join_cases machine p db) [
  | inl same ↦ subst IsTable (sym same) h
  | inr set ↦
      subst IsTable (sym set) (insert-IsTable db p.peer_id (pending_peer machine.now p) refl h)
]
step-IsTable db (approves machine id) h = elim (approve_peer_cases machine id db) [
  | inl same ↦ subst IsTable (sym same) h
  | inr (p, found, set) ↦ subst IsTable (sym set) (
      insert-IsTable db id (record p { status = "active"; last_seen = machine.now })
        (lookup-IsKeyed id p db.cluster_peers h.keyed found) h)
]

run-IsTable : (db : Database) (cs : List Call) → IsTable db → IsTable (run db cs)
unfolding run
run-IsTable db [] h = h
run-IsTable db (c ∷ cs) h = run-IsTable (step db c) cs (step-IsTable db c h)

-- What a request to join leaves, when it is answered with success.
joined :
    (machine : Machine) (p : PeerInfo) (db : Database)
    → (request_join machine (some p) db).0.success ≡ true
    → (request_join machine (some p) db).1
      ≡ record db { cluster_peers = insert p.peer_id (pending_peer machine.now p) db.cluster_peers }
unfolding request_join upsert_cluster_peer
joined machine p db done = ground (arith, done)

abbrev after_join : Machine → PeerInfo → Database → Database
after_join machine p db = record db {
  cluster_peers = insert p.peer_id (pending_peer machine.now p) db.cluster_peers;
}

lookup-after_join :
    (machine : Machine) (p : PeerInfo) (db : Database)
    → lookup p.peer_id (after_join machine p db).cluster_peers ≡ some (pending_peer machine.now p)
lookup-after_join machine p db = ground (
  arith,
  lookup-insert p.peer_id p.peer_id (pending_peer machine.now p) db.cluster_peers,
  eq_refl p.peer_id,
)

nodes_listed :
    (self : PeerInfo) (machine : Machine) (db : Database)
    → machine.fails select_active_peers ≡ false
    → get_cluster_nodes self machine db ≡ ok (self ∷ map info_of (active_peers db.cluster_peers))
unfolding get_cluster_nodes get_active_cluster_peers
nodes_listed self machine db works = rw works refl

list_made :
    (self : PeerInfo) (machine : Machine) (db : Database) (members : List PeerInfo)
    → get_cluster_nodes self machine db ≡ ok members
    → members ≡ self ∷ map info_of (active_peers db.cluster_peers)
unfolding get_cluster_nodes get_active_cluster_peers
list_made self machine db members listed = elim (Bool-cases (machine.fails select_active_peers)) [
  | inl failing ↦ ground (arith, failing, listed)
  | inr works ↦ ground (arith, works, listed)
]

map-info_of_other :
    (id : String) (ps : List ClusterPeer)
    → All (λ (q : ClusterPeer). q.peer_id ≢ id) ps
    → All (λ (q : PeerInfo). q.peer_id ≢ id) (map info_of ps)
map-info_of_other id [] h = tt
map-info_of_other id (q ∷ ps) h = (h.0, map-info_of_other id ps h.1)

create_tables-IsTable : IsTable create_tables
unfolding create_tables
create_tables-IsTable = record { keyed = tt; distinct = tt }

approved :
    (machine : Machine) (id : String) (p : ClusterPeer) (db : Database)
    → lookup id db.cluster_peers ≡ some p
    → p.status == "active" ≡ false
    → machine.fails select_peer ≡ false
    → machine.fails update_peer ≡ false
    → (approve_peer machine id db).1 ≡ activated machine id p db
unfolding approve_peer get_cluster_peer update_cluster_peer_status
approved machine id p db found idle reads writes = ground (arith, found, idle, reads, writes)

-- After any requests on the tables as the server creates them, and a request to join that succeeds,
-- every list of members that the server gives begins with the server itself and has no peer with the id
-- of that request after it, also where an administrator had approved one.
pub get_cluster_nodes-request_join :
    (cs : List Call) (machine later : Machine) (p self : PeerInfo) (members : List PeerInfo)
    → (request_join machine (some p) (run create_tables cs)).0.success ≡ true
    → get_cluster_nodes self later (request_join machine (some p) (run create_tables cs)).1
      ≡ ok members
    → (ns : List PeerInfo) × (members ≡ self ∷ ns)
      × All (λ (q : PeerInfo). q.peer_id ≢ p.peer_id) ns
get_cluster_nodes-request_join cs machine later p self members done listed =
    let db = run create_tables cs in
    let after : (request_join machine (some p) db).1 ≡ after_join machine p db =
      joined machine p db done in
    let table =
      insert-IsTable db p.peer_id (pending_peer machine.now p) refl
        (run-IsTable create_tables cs create_tables-IsTable) in
    let others =
      active_peers_pending p.peer_id (pending_peer machine.now p)
        (after_join machine p db).cluster_peers table.keyed table.distinct
        (lookup-after_join machine p db) refl in
    (
      map info_of (active_peers (after_join machine p db).cluster_peers),
      list_made self later (after_join machine p db) members
          (subst (λ d. get_cluster_nodes self later d ≡ ok members) after listed),
      map-info_of_other p.peer_id _ others,
    )

-- A peer whose request to join succeeds and is then approved is on the list of members, with the
-- address and the key that it gave, if the statements of the approval and of the list do not fail.
pub get_cluster_nodes-approve_peer :
    (machine between later : Machine) (p self : PeerInfo) (db : Database)
    → (request_join machine (some p) db).0.success ≡ true
    → between.fails select_peer ≡ false
    → between.fails update_peer ≡ false
    → later.fails select_active_peers ≡ false
    → (ns : List PeerInfo) × (get_cluster_nodes self later
          (approve_peer between p.peer_id (request_join machine (some p) db).1).1
        ≡ ok ns)
      × Memᴰ p ns
get_cluster_nodes-approve_peer machine between later p self db done reads writes lists =
    let before = after_join machine p db in
    let row = record (pending_peer machine.now p) { status = "active"; last_seen = between.now } in
    let after : (approve_peer between p.peer_id (request_join machine (some p) db).1).1
        ≡ activated between p.peer_id (pending_peer machine.now p) before =
      subst
        (λ d.
          (approve_peer between p.peer_id d).1
          ≡ activated between p.peer_id (pending_peer machine.now p) before)
        (sym (joined machine p db done))
        (approved between p.peer_id (pending_peer machine.now p) before
          (lookup-after_join machine p db) refl reads writes) in
    let member =
      active_peers_member p.peer_id row (insert p.peer_id row before.cluster_peers)
        (ground
          (arith, lookup-insert p.peer_id p.peer_id row before.cluster_peers, eq_refl p.peer_id))
        refl in
    (
      self ∷ map info_of (active_peers (insert p.peer_id row before.cluster_peers)),
      subst
          (λ d.
            get_cluster_nodes self later d
            ≡ ok (self ∷ map info_of (active_peers (insert p.peer_id row before.cluster_peers))))
          (sym after)
          (nodes_listed self later (activated between p.peer_id (pending_peer machine.now p) before)
            lists),
      tail (Memᴰ.map info_of member),
    )
