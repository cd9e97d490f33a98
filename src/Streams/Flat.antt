-- ===== src/Streams/Flat.antt =====
-- The calls of a stream manager, their effect on one map of all nodes, and the counts of the shards.
use enxame.Base.{
  ℕ, zero, suc, ◌+◌, ◌<◌, ◌≤◌, String, ◌≡◌, refl, ap, false, List, [], ◌∷◌, arith, eq_iff,
  ◌==◌ as nat_eq, Bool-cases, inl, inr, length,
}
use enxame.Base.Text.{◌==◌}
use enxame.Base.Dict.{Dict, insert, delete}
use enxame.Streams.{put, num_shards, shard_of, count_below}

-- The calls of a manager; BroadcastAsync starts a goroutine for each shard, which is a call of its own.
pub data Call (Event : Type 0) : Type 0 where
  registers unregisters : String → Call Event
  broadcasts : Event → Call Event
  broadcasts_shard : Event → ℕ → Call Event

-- The specification: one map from the nodes to the addresses of their channels.
pub record Flat : Type 0 where
  pub streams : Dict ℕ
  pub next : ℕ

unfoldable pub flat_step : {Event : Type 0} → Flat → Call Event → Flat
flat_step f (registers id) = record { streams = insert id f.next f.streams; next = suc f.next }
flat_step f (unregisters id) = record f { streams = delete id f.streams }
flat_step f _ = f

unfoldable pub flat_run : {Event : Type 0} → Flat → List (Call Event) → Flat
flat_run f [] = f
flat_run f (c ∷ cs) = flat_run (flat_step f c) cs

-- Changing one shard changes the count by the change of that shard.
count_below_outside :
    (i k : ℕ) (d : Dict ℕ) (shards : ℕ → Dict ℕ)
    → k ≤ i
    → count_below k (put i d shards) ≡ count_below k shards
unfolding count_below
count_below_outside i zero d shards h = refl
count_below_outside i (suc k) d shards h = ground (arith, h, count_below_outside i k d shards)

pub count_below-put :
    (i k : ℕ) (d : Dict ℕ) (shards : ℕ → Dict ℕ)
    → i < k
    → count_below k (put i d shards) + length (shards i) ≡ count_below k shards + length d
unfolding count_below
count_below-put i zero d shards h = ground (arith, h)
count_below-put i (suc k) d shards h = elim (Bool-cases (nat_eq i k)) [
  | inl here ↦ ground (arith, here, count_below_outside i k d shards)
  | inr away ↦ ground (arith, away, h, count_below-put i k d shards)
]

pub other_shard :
    (hash : String → ℕ) (id other : String)
    → nat_eq (shard_of hash id) (shard_of hash other) ≡ false
    → id == other ≡ false
other_shard hash id other away = elim (Bool-cases (id == other)) [
  | inl same ↦ absurd (ground (arith, away, ap (shard_of hash) ((eq_iff id other).0 same)))
  | inr differ ↦ differ
]

pub count_below_empty : (k : ℕ) → count_below k (λ i. []) ≡ 0
unfolding count_below
count_below_empty zero = refl
count_below_empty (suc k) = omega (arith, count_below_empty k)

pub shard_below : (hash : String → ℕ) (id : String) → shard_of hash id < num_shards
shard_below hash id = omega arith
