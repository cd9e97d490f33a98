-- ===== src/Nodes/Moderation/Bans.antt =====
-- A banned node under the operations of the core.
use enxame.Base.{
  false≢true, ℕ, String, ◌≡◌, ◌≢◌, sym, ◌∙◌, subst, Bool, true, false, List, Option, none, some,
  arith, eq_iff, if◌then◌else◌, Option-cases, Bool-cases, inl, inr,
}
use enxame.Base.Text.{◌==◌, has_prefix}
use enxame.Base.Dict.{lookup, lookup-insert}
use enxame.Base.Exec.{Outcome, ok, err, panic, carry-keeps}
use text.Mathlib.TextLemmas.{append_cancel_left}
use enxame.Nodes.Types.{Node, NodeBan, CoreError, is_relay, unix, ModerationEvent}
use enxame.Nodes.Redis.{Redis, RedisLaws, IsAbsent}
use enxame.Nodes.Manager.{
  set_data, data_of, get_data, refresh_data, NodeData, NodeJson, node_key, active_relays, register,
  remove_node, refresh_heartbeat, publish_moderation_event,
}
use enxame.Nodes.Database.{
  Database, NodeRow, Machine, upsert_node, upserted, update_row, is_node_banned, ban_node,
  unban_node, is_over,
}
use text.Mathlib.TextEquality.{starts_with_iff}
use text.Mathlib.TextLemmas.{prefix-append}

node_key_injective : (a b : String) → node_key a ≡ node_key b → a ≡ b
node_key_injective a b e = append_cancel_left "node:" a b e

node_key-active_relays : (a : String) → node_key a ≢ active_relays
node_key-active_relays a e = false≢true (
    subst (λ s. has_prefix s "node:" ≡ true) e
      ((starts_with_iff (node_key a) "node:").1 (prefix-append "node:" a)))

lookup-update_row :
    (j k : String) (f : NodeRow → NodeRow) (db : Database)
    → j ≢ k
    → lookup k (update_row j f db).nodes ≡ lookup k db.nodes
lookup-update_row j k f db h = elim (Option-cases (lookup j db.nodes)) [
  | inl absent ↦ ground (arith, absent)
  | inr (r, found) ↦ ground (arith, found, lookup-insert j k (f r) db.nodes, eq_iff j k, h)
]

-- A row that stands in the table, with a ban up to this time.
abbrev pub IsBannedRow : Option ℕ → Option NodeRow → Type 0
IsBannedRow until none = ⊥
IsBannedRow until (some r) = (r.banned ≡ true) × (r.ban_expires_at ≡ until)

-- The statements leave the row of a banned node as it is, unless they are about its ban.
pub lookup-is_node_banned :
    (machine : Machine) (j k : String) (until : Option ℕ) (db : Database)
    → IsBannedRow until (lookup k db.nodes)
    → is_over machine.now until ≡ false
    → lookup k (is_node_banned machine j db).1.nodes ≡ lookup k db.nodes
unfolding is_node_banned unban_node
lookup-is_node_banned machine j k until db v h = elim (Option-cases (lookup j db.nodes)) [
  | inl absent ↦ ground (arith, absent)
  | inr (r, found) ↦ elim (Bool-cases (j == k)) [
    | inl same ↦ ground (arith, found, same, v, h, eq_iff j k)
    | inr other ↦ ground (
      arith,
      found,
      other,
      eq_iff j k,
      lookup-update_row j k
          (λ x. record x { banned = false; ban_reason = none; ban_expires_at = none }) db,
    )
  ]
]

pub lookup-upsert_node :
    (machine : Machine) (n : Node) (k : String) (db : Database)
    → n.identity.node_id ≢ k
    → lookup k (upsert_node machine n db).1.nodes ≡ lookup k db.nodes
unfolding upsert_node
lookup-upsert_node machine n k db h = ground (
  arith,
  h,
  lookup-insert n.identity.node_id k (upserted machine.now n (lookup n.identity.node_id db.nodes))
      db.nodes,
  eq_iff n.identity.node_id k,
)

pub lookup-ban_node :
    (machine : Machine) (b : NodeBan) (k : String) (db : Database)
    → b.banned_node_id ≢ k
    → lookup k (ban_node machine b db).1.nodes ≡ lookup k db.nodes
unfolding ban_node
lookup-ban_node machine b k db h = ground (
  arith,
  lookup-update_row b.banned_node_id k
      (λ r. record r { banned = true; ban_reason = some b.reason; ban_expires_at = b.expires_at })
      db h,
)

pub lookup-unban_node :
    (machine : Machine) (j k : String) (db : Database)
    → j ≢ k
    → lookup k (unban_node machine j db).1.nodes ≡ lookup k db.nodes
unfolding unban_node
lookup-unban_node machine j k db h = ground (
  arith,
  lookup-update_row j k (λ r. record r { banned = false; ban_reason = none; ban_expires_at = none })
      db h,
)

-- The answer for a banned node whose ban is not over: the ban, or an error.
abbrev pub is_refusal : Outcome CoreError (Bool × String) → Bool
is_refusal (ok (banned, reason)) = banned
is_refusal (err e) = true
is_refusal panic = false

pub is_node_banned_lem :
    (machine : Machine) (k : String) (until : Option ℕ) (db : Database)
    → IsBannedRow until (lookup k db.nodes)
    → is_over machine.now until ≡ false
    → (is_refusal (is_node_banned machine k db).0 ≡ true) × ((is_node_banned machine k db).1 ≡ db)
unfolding is_node_banned
is_node_banned_lem machine k until db v h = elim (Option-cases (lookup k db.nodes)) [
  | inl absent ↦ ground (arith, absent, v)
  | inr (r, found) ↦ ground (arith, found, v, h)
]

module _ {Store : Type 0} (redis : Redis Store) (json : NodeJson) (laws : RedisLaws redis) where
  -- A command that changes what GET finds under no key but its own.
  IsAbsent-same :
      (key : String) (s s' : Store)
      → ((t : ℕ) → redis.get t key s' ≡ redis.get t key s)
      → IsAbsent redis key s
      → IsAbsent redis key s'
  IsAbsent-same key s s' same h t b e = h t b (sym (same t) ∙ e)

  other_key : (j k : String) → j ≢ k → node_key k ≢ node_key j
  other_key j k h e = h (sym (node_key_injective k j e))

  set_data-IsAbsent :
      (ttl now : ℕ) (j k : String) (o : Option (List ℕ)) (s : Store)
      → j ≢ k
      → IsAbsent redis (node_key k) s
      → IsAbsent redis (node_key k) (set_data redis json ttl now j o s).1
  set_data-IsAbsent ttl now j k none s h v = v
  set_data-IsAbsent ttl now j k (some bytes) s h v =
      IsAbsent-same (node_key k) s _
        (λ t. laws.get_set t now ttl (node_key k) (node_key j) bytes s (other_key j k h)) v

  pub register-IsAbsent :
      (ttl now : ℕ) (n : Node) (k : String) (s : Store)
      → n.identity.node_id ≢ k
      → IsAbsent redis (node_key k) s
      → IsAbsent redis (node_key k) (register redis json ttl now n s).1
  unfolding register
  register-IsAbsent ttl now n k s h v =
      carry-keeps (IsAbsent redis (node_key k))
        (set_data redis json ttl now n.identity.node_id (json.marshal (data_of now n)) s).0 _ _
        (set_data-IsAbsent ttl now n.identity.node_id k (json.marshal (data_of now n)) s h v)
        (λ _ w. elim (Bool-cases (is_relay n)) [
          | inl yes' ↦ rw yes' (
              IsAbsent-same (node_key k) _ _
                (λ t.
                  laws.get_zadd t (unix now) (node_key k) active_relays n.identity.node_id _
                    (node_key-active_relays k))
                w)
          | inr no' ↦ rw no' w
        ])

  zrem-IsAbsent :
      (k j : String) (b : Bool) (s : Store)
      → IsAbsent redis (node_key k) s
      → IsAbsent redis (node_key k) (if b then (redis.zrem active_relays j s).1 else s)
  zrem-IsAbsent k j true s v =
      IsAbsent-same (node_key k) s _
        (λ t. laws.get_zrem t (node_key k) active_relays j s (node_key-active_relays k)) v
  zrem-IsAbsent k j false s v = v

  del-IsAbsent :
      (j k : String) (s : Store)
      → IsAbsent redis (node_key k) s
      → IsAbsent redis (node_key k) (redis.del (node_key j) s).1
  del-IsAbsent j k s v = elim (Bool-cases (j == k)) [
    | inl same ↦
        subst (λ i. IsAbsent redis (node_key k) (redis.del (node_key i) s).1)
          (sym ((eq_iff j k).0 same)) (laws.absent_del (node_key k) s v)
    | inr other ↦
        IsAbsent-same (node_key k) s _
          (λ t.
            laws.get_del t (node_key k) (node_key j) s
              (other_key j k (ground (arith, other, eq_iff j k))))
          v
  ]

  pub remove_node-IsAbsent :
      (now : ℕ) (j k : String) (s : Store)
      → IsAbsent redis (node_key k) s
      → IsAbsent redis (node_key k) (remove_node redis json now j s).1
  unfolding remove_node
  remove_node-IsAbsent now j k s v = del-IsAbsent j k _ (zrem-IsAbsent k j _ s v)

  pub refresh_heartbeat-IsAbsent :
      (ttl now : ℕ) (j k : String) (status : ℕ) (s : Store)
      → j ≢ k
      → IsAbsent redis (node_key k) s
      → IsAbsent redis (node_key k) (refresh_heartbeat redis json ttl now j status s).1
  unfolding refresh_heartbeat
  refresh_heartbeat-IsAbsent ttl now j k status s h v =
      carry-keeps (IsAbsent redis (node_key k)) (get_data redis json now j s) _ s v
        (λ o w. refresh_data-IsAbsent o)
    where
      refresh_data-IsAbsent :
          (o : Option NodeData)
          → IsAbsent redis (node_key k) (refresh_data redis json ttl now j status o s).1
      refresh_data-IsAbsent none = v
      refresh_data-IsAbsent (some d) = set_data-IsAbsent ttl now j k _ s h v

  pub publish-IsAbsent :
      (event : ModerationEvent) (k : String) (s : Store)
      → IsAbsent redis (node_key k) s
      → IsAbsent redis (node_key k) (publish_moderation_event redis json event s).1
  unfolding publish_moderation_event
  publish-IsAbsent event k s v = elim (Option-cases (json.marshal_event event)) [
    | inl bad ↦ rw bad v
    | inr (bytes, good) ↦ rw good (
        IsAbsent-same (node_key k) s _
          (λ t. laws.get_publish t (node_key k) "moderation_events" bytes s) v)
  ]
