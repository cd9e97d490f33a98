-- ===== src/Cluster.antt =====
-- The cluster of core servers: ClusterServer in internal/server/cluster_manual.go, over the table of
-- peers.
use enxame.Base.{
  ℕ, String, Bool, true, false, List, [], ◌∷◌, Option, none, some, if◌then◌else◌, map, len, ltb,
  length,
}
use enxame.Base.Text.{◌==◌}
use enxame.Base.Exec.{Outcome, ok, err, panic}
use enxame.Nodes.Types.{Identity, CoreError}
use enxame.Nodes.Database.{Database, ClusterPeer, Machine}
use enxame.Nodes.Database.Peers.{
  upsert_cluster_peer, get_cluster_peer, get_active_cluster_peers, update_cluster_peer_status,
  get_all_nodes,
}
pub mod Peers
pub mod Membership
mod Tests

pub record PeerInfo : Type 0 where
  pub peer_id : String
  pub address : String
  pub public_key : List ℕ

pub record Answer : Type 0 where
  pub success : Bool
  pub message : String

abbrev answer : Bool → String → Answer
answer success message = record { success = success; message = message }

abbrev pub pending_peer : ℕ → PeerInfo → ClusterPeer
pending_peer now p = record {
  peer_id = p.peer_id;
  address = p.address;
  public_key = p.public_key;
  status = "pending";
  last_seen = now;
}

abbrev saved : Outcome CoreError Unit → Answer
saved (ok u) = answer true "Aguardando aprovação do administrador."
saved _ = answer false "failed to save peer"

unfoldable pub request_join : Machine → Option PeerInfo → Database → Answer × Database
request_join machine none db = (answer false "peer info required", db)
request_join machine (some p) db = (
  saved (upsert_cluster_peer machine (pending_peer machine.now p) db).0,
  (upsert_cluster_peer machine (pending_peer machine.now p) db).1,
)

-- The peer to which the initial synchronization is started, beside the answer.
abbrev Approval : Type 0
Approval = Answer × Option ClusterPeer

abbrev activated : ClusterPeer → Outcome CoreError Unit → Approval
activated p (ok u) = (answer true "Peer ativado. Sync inicial em andamento.", some p)
activated p _ = (answer false "failed to activate peer", none)

abbrev approve_found :
    Machine → String → Outcome CoreError (Option ClusterPeer) → Database → Approval × Database
approve_found machine id (ok none) db = ((answer false "peer not found", none), db)
approve_found machine id (ok (some p)) db =
    if p.status == "active" then ((answer true "peer already active", none), db) else (
      activated p (update_cluster_peer_status machine id "active" db).0,
      (update_cluster_peer_status machine id "active" db).1,
    )
approve_found machine id _ db = ((answer false "database error", none), db)

unfoldable pub approve_peer : Machine → String → Database → Approval × Database
approve_peer machine id db = approve_found machine id (get_cluster_peer machine id db).0 db

abbrev unless_empty : Outcome CoreError (List Identity) → Option (List Identity)
unless_empty (ok (n ∷ ns)) = some (n ∷ ns)
unless_empty _ = none

-- What the new peer is sent, if anything is.
unfoldable pub perform_initial_sync : Machine → Database → Option (List Identity)
perform_initial_sync machine db = unless_empty (get_all_nodes machine db).0

abbrev pub info_of : ClusterPeer → PeerInfo
info_of p = record { peer_id = p.peer_id; address = p.address; public_key = p.public_key }

abbrev with_self :
    PeerInfo → Outcome CoreError (List ClusterPeer) → Outcome CoreError (List PeerInfo)
with_self self (ok ps) = ok (self ∷ map info_of ps)
with_self self (err e) = err e
with_self self panic = panic

unfoldable pub get_cluster_nodes : PeerInfo → Machine → Database → Outcome CoreError (List PeerInfo)
get_cluster_nodes self machine db = with_self self (get_active_cluster_peers machine db).0

-- SyncNodes counts and logs the first sixteen bytes of each id, and keeps nothing.
abbrev counted : Identity → Outcome CoreError ℕ → Outcome CoreError ℕ
counted n rest = if ltb (len n.node_id) 16 then panic else rest

unfoldable pub sync_nodes : List Identity → Outcome CoreError ℕ
sync_nodes ns = sync_from ns (length ns)
  where
    sync_from : List Identity → ℕ → Outcome CoreError ℕ
    sync_from [] count = ok count
    sync_from (n ∷ ns) count = counted n (sync_from ns count)

abbrev addresses : Outcome CoreError (List ClusterPeer) → List String
addresses (ok ps) = map (λ p. p.address) ps
addresses _ = []

-- The addresses to which BroadcastNodeRegistration sends a registration, each in a goroutine.
unfoldable pub broadcast_node_registration : Machine → Database → List String
broadcast_node_registration machine db = addresses (get_active_cluster_peers machine db).0
