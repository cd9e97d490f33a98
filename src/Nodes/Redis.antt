-- ===== src/Nodes/Redis.antt =====
-- What the node manager uses of Redis: commands on a store that comes as a parameter, with the
-- documented behaviour that the theorems rely on.
use enxame.Base.{ℕ, String, ◌≡◌, ◌≢◌, Bool, true, List, Option}

-- An answer to GET: an error, no such key, or a value.
pub data Reply : Type 0 where
  failed missing : Reply
  found : List ℕ → Reply

-- Each command that writes says whether it succeeded. GET, SET and KEYS take the time, since keys
-- expire; SET takes how long the key is to live.
pub record Redis (Store : Type 0) : Type 0 where
  pub get : ℕ → String → Store → Reply
  pub set : ℕ → String → List ℕ → ℕ → Store → Bool × Store
  pub del : String → Store → Bool × Store
  pub keys : ℕ → String → Store → Option (List String)
  pub zadd : String → ℕ → String → Store → Bool × Store
  pub zrem : String → String → Store → Bool × Store
  pub publish : String → List ℕ → Store → Bool × Store

module _ {Store : Type 0} (redis : Redis Store) where
  -- GET finds no value under the key, at any time.
  abbrev pub IsAbsent : String → Store → Type 0
  IsAbsent k s = (t : ℕ) (b : List ℕ) → redis.get t k s ≢ found b

  -- A command changes no key but its own; a key that is absent stays so when it is deleted, and a DEL
  -- that succeeds makes its key absent.
  pub record RedisLaws : Type 0 where
    pub get_set :
        (t now ttl : ℕ) (j k : String) (b : List ℕ) (s : Store)
        → j ≢ k
        → redis.get t j (redis.set now k b ttl s).1 ≡ redis.get t j s
    pub get_del :
        (t : ℕ) (j k : String) (s : Store)
        → j ≢ k
        → redis.get t j (redis.del k s).1 ≡ redis.get t j s
    pub absent_del : (k : String) (s : Store) → IsAbsent k s → IsAbsent k (redis.del k s).1
    pub del_absent :
        (k : String) (s : Store) → (redis.del k s).0 ≡ true → IsAbsent k (redis.del k s).1
    pub get_zadd :
        (t score : ℕ) (j k member : String) (s : Store)
        → j ≢ k
        → redis.get t j (redis.zadd k score member s).1 ≡ redis.get t j s
    pub get_zrem :
        (t : ℕ) (j k member : String) (s : Store)
        → j ≢ k
        → redis.get t j (redis.zrem k member s).1 ≡ redis.get t j s
    pub get_publish :
        (t : ℕ) (j channel : String) (b : List ℕ) (s : Store)
        → redis.get t j (redis.publish channel b s).1 ≡ redis.get t j s
