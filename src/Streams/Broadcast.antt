-- ===== src/Streams/Broadcast.antt =====
-- A broadcast to open channels succeeds and changes their buffers alone.
use enxame.Base.{
  ℕ, zero, suc, ◌<◌, String, ◌≡◌, refl, sym, ◌∙◌, subst, false, [], ◌∷◌, some, arith, eq_iff,
  eq_refl, ◌==◌ as nat_eq, Bool-cases, inl, inr, All,
}
use enxame.Base.Dict.{Dict, lookup, Distinct}
use enxame.Base.Exec.{ok, ◌>>◌}
use enxame.Streams.{
  StreamManager, Method, num_shards, offer, offer_all, broadcast_shard, broadcast_below, broadcast,
}
use enxame.Streams.Soundness.{IsSound}

module _ {Event : Type 0} where
  -- What a send leaves as it was: all but the buffers.
  pub record SameShape (m n : StreamManager Event) : Type 0 where
    pub shards_same : n.shards ≡ m.shards
    pub next_same : n.next ≡ m.next
    pub closed_same : (c : ℕ) → (n.heap c).closed ≡ (m.heap c).closed

  SameShape-refl : (m : StreamManager Event) → SameShape m m
  SameShape-refl m = record { shards_same = refl; next_same = refl; closed_same = λ c. refl }

  SameShape-trans : (k m n : StreamManager Event) → SameShape k m → SameShape m n → SameShape k n
  SameShape-trans k m n g h = record {
    shards_same = h.shards_same ∙ g.shards_same;
    next_same = h.next_same ∙ g.next_same;
    closed_same = λ c. h.closed_same c ∙ g.closed_same c;
  }

  abbrev pub Succeeds : Method Event Unit → StreamManager Event → Type 0
  Succeeds f m = ((f m).0 ≡ ok tt) × SameShape m (f m).1

  offer-Succeeds :
      (event : Event) (a : ℕ) (m : StreamManager Event)
      → (m.heap a).closed ≡ false
      → Succeeds (offer event a) m
  unfolding offer
  offer-Succeeds event a m h = (
    ground (arith, h),
    record {
      shards_same = ground (arith, h);
      next_same = ground (arith, h);
      closed_same = λ c. elim (Bool-cases (nat_eq a c)) [
        | inl same ↦ ground (arith, same, h)
        | inr other ↦ ground (arith, other, h)
      ];
    },
  )

  then-Succeeds :
      (f g : Method Event Unit) (m : StreamManager Event)
      → Succeeds f m
      → Succeeds g (f m).1
      → Succeeds (f >> g) m
  then-Succeeds f g m h k = rw h.0 (k.0, SameShape-trans m (f m).1 (g (f m).1).1 h.1 k.1)

  abbrev AllOpen : StreamManager Event → Dict ℕ → Type 0
  AllOpen m d = All (λ (kv : String × ℕ). (m.heap kv.1).closed ≡ false) d

  AllOpen-same :
      (m n : StreamManager Event) (d : Dict ℕ) → SameShape m n → AllOpen m d → AllOpen n d
  AllOpen-same m n [] h k = tt
  AllOpen-same m n ((id, a) ∷ d) h k = (h.closed_same a ∙ k.0, AllOpen-same m n d h k.1)

  offer_all-Succeeds :
      (event : Event) (d : Dict ℕ) (m : StreamManager Event)
      → AllOpen m d
      → Succeeds (offer_all event d) m
  unfolding offer_all
  offer_all-Succeeds event [] m h = (refl, SameShape-refl m)
  offer_all-Succeeds event ((id, a) ∷ d) m h =
      let first = offer-Succeeds event a m h.0 in
      then-Succeeds (offer event a) (offer_all event d) m first (
        offer_all-Succeeds event d (offer event a m).1
          (AllOpen-same m (offer event a m).1 d first.1 h.1))

  entries :
      (m : StreamManager Event) (d : Dict ℕ)
      → Distinct d
      → ((id : String) (a : ℕ) → lookup id d ≡ some a → (m.heap a).closed ≡ false)
      → AllOpen m d
  unfolding lookup
  entries m [] k h = tt
  entries m ((id, a) ∷ d) k h = (
    h id a (ground (arith, eq_refl id)),
    entries m d k.1 (λ other b e. h other b (ground (arith, e, k.0, eq_iff id other))),
  )

  module _ (hash : String → ℕ) where
    pub same-IsSound : (m n : StreamManager Event) → SameShape m n → IsSound hash m → IsSound hash n
    same-IsSound m n h v = record {
      owner = v.owner;
      owned = λ i id a e. v.owned i id a (subst (λ s. lookup id (s i) ≡ some a) h.shards_same e);
      placed = λ i id a e. v.placed i id a (subst (λ s. lookup id (s i) ≡ some a) h.shards_same e);
      fresh = λ i id a e.
          subst (λ k. a < k) (sym h.next_same)
            (v.fresh i id a (subst (λ s. lookup id (s i) ≡ some a) h.shards_same e));
      opened = λ i id a e.
          h.closed_same a ∙ v.opened i id a (subst (λ s. lookup id (s i) ≡ some a) h.shards_same e);
      distinct = λ i. subst (λ s. Distinct (s i)) (sym h.shards_same) (v.distinct i);
    }

    pub broadcast_shard-Succeeds :
        (event : Event) (i : ℕ) (m : StreamManager Event)
        → IsSound hash m
        → Succeeds (broadcast_shard event i) m
    unfolding broadcast_shard
    broadcast_shard-Succeeds event i m v =
        offer_all-Succeeds event (m.shards i) m (entries m (m.shards i) (v.distinct i) (v.opened i))

    broadcast_below-Succeeds :
        (event : Event) (k : ℕ) (m : StreamManager Event)
        → IsSound hash m
        → Succeeds (broadcast_below event k) m
    unfolding broadcast_below
    broadcast_below-Succeeds event zero m v = (refl, SameShape-refl m)
    broadcast_below-Succeeds event (suc k) m v =
        let first = broadcast_shard-Succeeds event k m v in
        then-Succeeds (broadcast_shard event k) (broadcast_below event k) m first (
          broadcast_below-Succeeds event k (broadcast_shard event k m).1
            (same-IsSound m (broadcast_shard event k m).1 first.1 v))

    pub broadcast-Succeeds :
        (event : Event) (m : StreamManager Event) → IsSound hash m → Succeeds (broadcast event) m
    unfolding broadcast
    broadcast-Succeeds event m v = broadcast_below-Succeeds event num_shards m v
