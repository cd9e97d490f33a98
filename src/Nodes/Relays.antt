-- ===== src/Nodes/Relays.antt =====
-- The relays that a node is told of: GetActiveRelays and GetNodeCount of
-- internal/repository/redis/node_manager.go. math/rand's shuffle comes as a parameter.
use enxame.Base.{
  ℕ, zero, suc, String, Bool, true, false, not, ◌&&◌, ◌||◌, List, [], ◌∷◌, ◌++◌, Option, none, some,
  ◌==◌, ltb, if◌then◌else◌, any, filter_by, len,
}
use enxame.Base.Text.{◌==◌ as text_eq}
use enxame.Base.Exec.{Outcome, ok, err, panic}
use enxame.Nodes.Types.{Node, CoreError, redis_failed, is_relay}
use enxame.Nodes.Redis.{Redis}
use enxame.Nodes.Manager.{NodeJson, find_node}
use Prim.Native.String.{slice}
pub mod Choice

abbrev pub take {ℓ} : {A : Type ℓ} → ℕ → List A → List A
take zero xs = []
take (suc k) [] = []
take (suc k) (x ∷ xs) = x ∷ take k xs

-- key[len("node:"):]
abbrev pub id_of_key : String → String
id_of_key key = slice key 5 (len key)

abbrev pub is_excluded : List String → String → Bool
is_excluded excluded id = any (λ e. text_eq e id) excluded

abbrev pub is_preferred : String → Node → Bool
is_preferred region n = not (text_eq region "") && text_eq n.region region

-- The preferred relays, shuffled, and then the others, shuffled.
unfoldable pub ordered : (List Node → List Node) → String → List Node → List Node
ordered shuffle region relays =
    shuffle (filter_by (is_preferred region) relays)
    ++ shuffle (filter_by (λ n. not (is_preferred region n)) relays)

-- A limit that is not positive is 0, and does not limit.
abbrev pub limited : ℕ → List Node → List Node
limited zero ns = ns
limited (suc k) ns = take (suc k) ns

module _ {Store : Type 0} (redis : Redis Store) (json : NodeJson) where
  -- A key whose node cannot be read, or is not a relay, is passed over.
  abbrev relay_of : Outcome CoreError (Option Node) → Option Node
  relay_of (ok (some n)) = if is_relay n then some n else none
  relay_of _ = none

  abbrev relay_at : ℕ → List String → Store → String → Option Node
  relay_at now excluded s key =
      if is_excluded excluded (id_of_key key)
      then none
      else relay_of (find_node redis json now (id_of_key key) s)

  abbrev cons_some : Option Node → List Node → List Node
  cons_some none ns = ns
  cons_some (some n) ns = n ∷ ns

  -- The relays under these keys, in their order.
  unfoldable pub relays_of : ℕ → List String → Store → List String → List Node
  relays_of now excluded s [] = []
  relays_of now excluded s (key ∷ ks) =
      cons_some (relay_at now excluded s key) (relays_of now excluded s ks)

  module _ (shuffle : List Node → List Node) where
    unfoldable pub get_active_relays :
        ℕ → String → ℕ → List String → Store → Outcome CoreError (List Node)
    unfolding ordered relays_of
    get_active_relays now region limit excluded s = elim (redis.keys now "node:*" s) [
      | none ↦ err redis_failed
      | some ks ↦ ok (limited limit (ordered shuffle region (relays_of now excluded s ks)))
    ]

  -- counts[node.Type]++, on a map from the types
  abbrev bump : ℕ → List (ℕ × ℕ) → List (ℕ × ℕ)
  bump t [] = (t, 1) ∷ []
  bump t ((u, k) ∷ rest) = if u == t then (u, suc k) ∷ rest else (u, k) ∷ bump t rest

  abbrev count_found : Outcome CoreError (Option Node) → List (ℕ × ℕ) → List (ℕ × ℕ)
  count_found (ok (some n)) counts = bump n.node_type counts
  count_found _ counts = counts

  abbrev counts_from : ℕ → Store → List String → List (ℕ × ℕ) → List (ℕ × ℕ)
  counts_from now s [] counts = counts
  counts_from now s (key ∷ ks) counts =
      counts_from now s ks (count_found (find_node redis json now (id_of_key key) s) counts)

  unfoldable pub get_node_count : ℕ → Store → Outcome CoreError (List (ℕ × ℕ))
  get_node_count now s = elim (redis.keys now "node:*" s) [
    | none ↦ err redis_failed
    | some ks ↦ ok (counts_from now s ks [])
  ]
