-- ===== src/Cluster/Tests.antt =====
-- A cluster of two servers, of which one joins twice.
use enxame.Base.{ℕ, String, ◌≡◌, ◌≢◌, refl, false, List, [], ◌∷◌, some, All}
use enxame.Base.Exec.{ok}
use enxame.Base.Dict.{lookup, insert}
use enxame.Nodes.Database.{Machine, create_tables}
use enxame.Nodes.Database.Peers.{
  upsert_cluster_peer, get_cluster_peer, update_cluster_peer_status, get_active_cluster_peers,
}
use enxame.Cluster.{PeerInfo, request_join, approve_peer, get_cluster_nodes}
use enxame.Cluster.Membership.{
  Call, joins, approves, run, step, get_cluster_nodes-request_join, get_cluster_nodes-approve_peer,
}
use mathlib.Core.List.{Memᴰ}

abbrev machine : ℕ → Machine
machine now = record { now = now; fails = λ st. false }

abbrev peer : String → PeerInfo
peer id = record { peer_id = id; address = "10.0.0.1:50051"; public_key = 1 ∷ [] }

-- One server has joined and was approved, another has joined and was approved.
abbrev calls : List Call
calls =
    joins (machine 1) (some (peer "a"))
    ∷ approves (machine 2) "a"
    ∷ joins (machine 3) (some (peer "b"))
    ∷ approves (machine 4) "b"
    ∷ []

get_cluster_nodes-request_join_example :
    (ns : List PeerInfo) × (peer "self" ∷ peer "b" ∷ [] ≡ peer "self" ∷ ns)
    × All (λ (q : PeerInfo). q.peer_id ≢ "a") ns
unfolding run step request_join approve_peer get_cluster_nodes create_tables upsert_cluster_peer
    get_cluster_peer update_cluster_peer_status get_active_cluster_peers lookup insert
get_cluster_nodes-request_join_example =
    get_cluster_nodes-request_join calls (machine 5) (machine 6) (peer "a") (peer "self")
      (peer "self" ∷ peer "b" ∷ []) refl refl

get_cluster_nodes-approve_peer_example :
    (ns : List PeerInfo) × (get_cluster_nodes
        (peer "self")
        (machine 3)
        (approve_peer
          (machine 2)
          "a"
          (request_join (machine 1) (some (peer "a")) create_tables).1).1
      ≡ ok ns)
    × Memᴰ (peer "a") ns
unfolding request_join create_tables upsert_cluster_peer
get_cluster_nodes-approve_peer_example =
    get_cluster_nodes-approve_peer (machine 1) (machine 2) (machine 3) (peer "a") (peer "self")
      create_tables refl refl refl refl
