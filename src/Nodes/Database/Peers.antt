-- ===== src/Nodes/Database/Peers.antt =====
-- The statements on the peers of the cluster, and the list of all nodes that a peer is sent.
use enxame.Base.{
  String, true, List, [], ◌∷◌, Option, none, some, if◌then◌else◌, ◌&&◌, ◌||◌, not, is_some,
}
use enxame.Base.Text.{◌==◌}
use enxame.Base.Dict.{Dict, lookup, insert}
use enxame.Base.Exec.{◌>>=◌, ◌>>◌, gets, modify}
use enxame.Nodes.Types.{Identity}
use enxame.Nodes.Database.{
  NodeRow, ClusterPeer, Database, Machine, Repository, fits, statement, upsert_peer_row,
  select_peer, select_active_peers, update_peer, select_all_nodes,
}

unfoldable pub upsert_cluster_peer : Machine → ClusterPeer → Repository Unit
upsert_cluster_peer machine p = do
  statement machine upsert_peer_row ((fits 64 p.peer_id && fits 256 p.address) && fits 16 p.status)
  modify (λ db. record db { cluster_peers = insert p.peer_id p db.cluster_peers })

unfoldable pub get_cluster_peer : Machine → String → Repository (Option ClusterPeer)
get_cluster_peer machine id = do
  statement machine select_peer true
  gets (λ db. lookup id db.cluster_peers)

-- WHERE status = 'active'
abbrev pub active_peers : Dict ClusterPeer → List ClusterPeer
active_peers [] = []
active_peers ((id, p) ∷ rest) =
    let others = active_peers rest in if p.status == "active" then p ∷ others else others

unfoldable pub get_active_cluster_peers : Machine → Repository (List ClusterPeer)
get_active_cluster_peers machine = do
  statement machine select_active_peers true
  gets (λ db. active_peers db.cluster_peers)

abbrev set_status : Machine → String → String → Option ClusterPeer → Database → Database
set_status machine id status none db = db
set_status machine id status (some p) db = record db {
  cluster_peers =
      insert id (record p { status = status; last_seen = machine.now }) db.cluster_peers;
}

unfoldable pub update_cluster_peer_status : Machine → String → String → Repository Unit
update_cluster_peer_status machine id status = do
  row ← gets (λ db. lookup id db.cluster_peers)
  statement machine update_peer (not (is_some row) || fits 16 status)
  modify (λ db. set_status machine id status (lookup id db.cluster_peers) db)

abbrev pub identities : Dict NodeRow → List Identity
identities [] = []
identities ((id, r) ∷ rest) =
    record { node_id = id; public_key = r.public_key; signature = [] } ∷ identities rest

unfoldable pub get_all_nodes : Machine → Repository (List Identity)
get_all_nodes machine = do statement machine select_all_nodes true; gets (λ db. identities db.nodes)
