-- ===== src/Cluster/Peers.antt =====
-- The rows of the table of peers, and those that are active.
use enxame.Base.{
  String, ◌≡◌, ◌≢◌, sym, subst, true, false, [], ◌∷◌, some, arith, eq_iff, Bool-cases, inl, inr,
  All,
}
use enxame.Base.Text.{◌==◌}
use enxame.Base.Dict.{Dict, lookup, insert, has, Distinct}
use enxame.Nodes.Database.{ClusterPeer}
use enxame.Nodes.Database.Peers.{active_peers}
use mathlib.Core.List.{Memᴰ}
use mathlib.Core.List.Memᴰ.{head, tail}

-- Each row stands under its own id.
abbrev pub IsKeyed : Dict ClusterPeer → Type 0
IsKeyed rows = All (λ (kv : String × ClusterPeer). kv.1.peer_id ≡ kv.0) rows

pub insert-IsKeyed :
    (id : String) (p : ClusterPeer) (rows : Dict ClusterPeer)
    → p.peer_id ≡ id
    → IsKeyed rows
    → IsKeyed (insert id p rows)
unfolding insert
insert-IsKeyed id p [] own h = (own, tt)
insert-IsKeyed id p ((k, q) ∷ rows) own h = elim (Bool-cases (k == id)) [
  | inl same ↦ rw (same, insert) (own, h.1)
  | inr other ↦ rw (other, insert) (h.0, insert-IsKeyed id p rows own h.1)
]

pub lookup-IsKeyed :
    (id : String) (p : ClusterPeer) (rows : Dict ClusterPeer)
    → IsKeyed rows
    → lookup id rows ≡ some p
    → p.peer_id ≡ id
unfolding lookup
lookup-IsKeyed id p [] h found = ground (arith, found)
lookup-IsKeyed id p ((k, q) ∷ rows) h found =
    ground (arith, found, h.0, eq_iff k id, lookup-IsKeyed id p rows h.1)

active_peers_absent :
    (id : String) (rows : Dict ClusterPeer)
    → IsKeyed rows
    → has id rows ≡ false
    → All (λ (q : ClusterPeer). q.peer_id ≢ id) (active_peers rows)
unfolding lookup
active_peers_absent id [] h absent = tt
active_peers_absent id ((k, q) ∷ rows) h absent =
    let others = active_peers_absent id rows h.1 (ground (arith, absent)) in
    elim (Bool-cases (q.status == "active")) [
      | inl yes' ↦ rw (yes', active_peers) (ground (arith, absent, h.0, eq_iff k id), others)
      | inr no' ↦ rw (no', active_peers) others
    ]

pub active_peers_pending :
    (id : String) (p : ClusterPeer) (rows : Dict ClusterPeer)
    → IsKeyed rows
    → Distinct rows
    → lookup id rows ≡ some p
    → p.status == "active" ≡ false
    → All (λ (q : ClusterPeer). q.peer_id ≢ id) (active_peers rows)
unfolding lookup
active_peers_pending id p [] h d found idle = tt
active_peers_pending id p ((k, q) ∷ rows) h d found idle = elim (Bool-cases (k == id)) [
  | inl same ↦
      let idle_row : q.status == "active" ≡ false = ground (arith, same, found, idle) in
      rw (idle_row, active_peers)
        (active_peers_absent id rows h.1
          (subst (λ i. has i rows ≡ false) (ground (arith, same, eq_iff k id)) d.0))
  | inr other ↦
      let others = active_peers_pending id p rows h.1 d.1 (ground (arith, other, found)) idle in
      elim (Bool-cases (q.status == "active")) [
        | inl yes' ↦ rw (yes', active_peers) (ground (arith, other, h.0, eq_iff k id), others)
        | inr no' ↦ rw (no', active_peers) others
      ]
]

pub active_peers_member :
    (id : String) (p : ClusterPeer) (rows : Dict ClusterPeer)
    → lookup id rows ≡ some p
    → p.status == "active" ≡ true
    → Memᴰ p (active_peers rows)
unfolding lookup
active_peers_member id p [] found active = absurd (ground (arith, found))
active_peers_member id p ((k, q) ∷ rows) found active = elim (Bool-cases (k == id)) [
  | inl same ↦
      let own : q ≡ p = ground (arith, same, found) in
      let active_row : q.status == "active" ≡ true = ground (arith, own, active) in
      rw (active_row, active_peers) (head (sym own))
  | inr other ↦
      let rest = active_peers_member id p rows (ground (arith, other, found)) active in
      elim (Bool-cases (q.status == "active")) [
        | inl yes' ↦ rw (yes', active_peers) (tail rest)
        | inr no' ↦ rw (no', active_peers) rest
      ]
]
