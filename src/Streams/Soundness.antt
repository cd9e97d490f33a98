-- ===== src/Streams/Soundness.antt =====
-- The shards together are one map from the nodes to channels that are open.
use enxame.Base.{
  ℕ, ◌<◌, String, ◌≡◌, ◌≢◌, ◌⊎◌, sym, ◌∙◌, subst, ap, false, Option, none, some, arith, eq_iff,
  eq_refl, ◌==◌ as nat_eq, Bool-cases, Option-cases, inl, inr,
}
use enxame.Base.Dict.{
  lookup, Distinct, lookup-insert, lookup-delete, insert-Distinct, delete-Distinct,
}
use enxame.Base.Exec.{ok}
use enxame.Streams.{
  StreamManager, put, shard_of, new_stream_manager, register, unregister, close_found,
}

put_same : {A : Type 0} (i : ℕ) (x : A) (f : ℕ → A) → put i x f i ≡ x
put_same i x f = ground arith

put_other : {A : Type 0} (i j : ℕ) (x : A) (f : ℕ → A) → i ≢ j → put i x f j ≡ f j
put_other i j x f h = ground (arith, h)

module _ (hash : String → ℕ) {Event : Type 0} where
  -- The channel of a node.
  abbrev pub stream_of : StreamManager Event → String → Option ℕ
  stream_of m id = lookup id (m.shards (shard_of hash id))

  -- Every entry of a shard belongs there, its channel is of its node alone and open, and no key stands
  -- twice in a shard.
  pub record IsSound (m : StreamManager Event) : Type 0 where
    pub owner : ℕ → String
    pub owned : (i : ℕ) (id : String) (a : ℕ) → lookup id (m.shards i) ≡ some a → owner a ≡ id
    pub placed :
        (i : ℕ) (id : String) (a : ℕ) → lookup id (m.shards i) ≡ some a → shard_of hash id ≡ i
    pub fresh : (i : ℕ) (id : String) (a : ℕ) → lookup id (m.shards i) ≡ some a → a < m.next
    pub opened :
        (i : ℕ) (id : String) (a : ℕ) → lookup id (m.shards i) ≡ some a → (m.heap a).closed ≡ false
    pub distinct : (i : ℕ) → Distinct (m.shards i)

  pub new-IsSound : (size : ℕ) → IsSound (new_stream_manager size)
  unfolding new_stream_manager lookup
  new-IsSound size = record {
    owner = λ a. "";
    owned = λ i id a e. ground (arith, e);
    placed = λ i id a e. ground (arith, e);
    fresh = λ i id a e. ground (arith, e);
    opened = λ i id a e. ground (arith, e);
    distinct = λ i. tt;
  }

  -- The entries of the shards after a registration: the new one, or an old one of another node.
  register_entry :
      (id : String) (m : StreamManager Event) (i : ℕ) (other : String) (a : ℕ)
      → lookup other ((register hash id m).1.shards i) ≡ some a
      → ((other ≡ id) × (a ≡ m.next) × (i ≡ shard_of hash id))
        ⊎ (lookup other (m.shards i) ≡ some a)
  unfolding register
  register_entry id m i other a e = elim (Bool-cases (nat_eq (shard_of hash id) i)) [
    | inl here ↦ ground (
      arith,
      here,
      e,
      lookup-insert id other m.next (m.shards (shard_of hash id)),
      eq_iff id other,
    )
    | inr away ↦ inr (ground (arith, away, e))
  ]

  unregister_entry :
      (id : String) (m : StreamManager Event) (i : ℕ) (other : String) (a : ℕ)
      → lookup other ((unregister hash id m).1.shards i) ≡ some a
      → lookup other (m.shards i) ≡ some a
  unfolding unregister
  unregister_entry id m i other a e = elim (Option-cases (stream_of m id)) [
    | inl absent ↦ ground (arith, absent, e)
    | inr (b, at) ↦ elim (Bool-cases (m.heap b).closed) [
      | inl closed ↦ ground (arith, at, closed, e)
      | inr open' ↦ elim (Bool-cases (nat_eq (shard_of hash id) i)) [
        | inl here ↦ ground (
          arith,
          at,
          open',
          e,
          here,
          lookup-delete id other (m.shards (shard_of hash id)),
          eq_iff id other,
        )
        | inr away ↦ ground (arith, at, open', e, away)
      ]
    ]
  ]

  unregister_gone :
      (id : String) (m : StreamManager Event)
      → IsSound m
      → lookup id ((unregister hash id m).1.shards (shard_of hash id)) ≡ none
  unfolding unregister
  unregister_gone id m v = elim (Option-cases (stream_of m id)) [
    | inl absent ↦ ground (arith, absent)
    | inr (b, at) ↦ ground (
      arith,
      at,
      v.opened (shard_of hash id) id b at,
      eq_refl id,
      lookup-delete id id (m.shards (shard_of hash id)),
    )
  ]

  pub register-IsSound :
      (id : String) (m : StreamManager Event) → IsSound m → IsSound (register hash id m).1
  unfolding register
  register-IsSound id m v = record {
    owner = put m.next id v.owner;
    owned = λ i other a e. elim (register_entry id m i other a e) [
      | inl new ↦ ground (arith, new)
      | inr old ↦ ground (arith, v.owned i other a old, v.fresh i other a old)
    ];
    placed = λ i other a e. elim (register_entry id m i other a e) [
      | inl new ↦ ap (shard_of hash) new.0 ∙ sym new.2
      | inr old ↦ v.placed i other a old
    ];
    fresh = λ i other a e. elim (register_entry id m i other a e) [
      | inl new ↦ ground (arith, new)
      | inr old ↦ ground (arith, v.fresh i other a old)
    ];
    opened = λ i other a e. elim (register_entry id m i other a e) [
      | inl new ↦ ground (arith, new)
      | inr old ↦ ground (arith, v.opened i other a old)
    ];
    distinct = λ i. elim (Bool-cases (nat_eq (shard_of hash id) i)) [
      | inl here ↦
          rw (here, put)
            (insert-Distinct id m.next (m.shards (shard_of hash id))
              (v.distinct (shard_of hash id)))
      | inr away ↦ rw (away, put) (v.distinct i)
    ];
  }

  -- Only the channel of the node is closed.
  unregister_closed :
      (id : String) (m : StreamManager Event) (c : ℕ)
      → (stream_of m id ≢ some c)
      → ((unregister hash id m).1.heap c).closed ≡ (m.heap c).closed
  unfolding unregister
  unregister_closed id m c other = elim (Option-cases (stream_of m id)) [
    | inl absent ↦ ground (arith, absent)
    | inr (b, at) ↦ elim (Bool-cases (nat_eq b c)) [
      | inl same ↦ absurd (other (ground (arith, at, same)))
      | inr differ ↦ ground (arith, at, differ)
    ]
  ]

  unregister_ok :
      (id : String) (m : StreamManager Event) → IsSound m → (unregister hash id m).0 ≡ ok tt
  unfolding unregister
  unregister_ok id m v = elim (Option-cases (stream_of m id)) [
    | inl absent ↦ ground (arith, absent)
    | inr (b, at) ↦ ground (arith, at, v.opened (shard_of hash id) id b at)
  ]

  pub next-unregister :
      (id : String) (m : StreamManager Event) → (unregister hash id m).1.next ≡ m.next
  unfolding unregister
  next-unregister id m = ground arith

  unregister-Distinct :
      (id : String) (m : StreamManager Event) (i : ℕ)
      → IsSound m
      → Distinct ((unregister hash id m).1.shards i)
  unfolding unregister
  unregister-Distinct id m i v = elim (Option-cases (stream_of m id)) [
    | inl absent ↦ rw (absent, close_found) (v.distinct i)
    | inr (b, at) ↦ elim (Bool-cases (nat_eq (shard_of hash id) i)) [
      | inl here ↦ ground (
        arith,
        at,
        here,
        v.opened (shard_of hash id) id b at,
        delete-Distinct id (m.shards (shard_of hash id)) (v.distinct (shard_of hash id)),
      )
      | inr away ↦ ground (arith, at, away, v.opened (shard_of hash id) id b at, v.distinct i)
    ]
  ]

  -- An entry that is left has another channel than the node that leaves.
  unregister_apart :
      (id : String) (m : StreamManager Event) (i : ℕ) (other : String) (a : ℕ)
      → IsSound m
      → lookup other ((unregister hash id m).1.shards i) ≡ some a
      → stream_of m id ≢ some a
  unregister_apart id m i other a v e at =
      let own : other ≡ id =
        sym (v.owned i other a (unregister_entry id m i other a e))
        ∙ v.owned (shard_of hash id) id a at in
      let place : i ≡ shard_of hash id =
        sym (v.placed i other a (unregister_entry id m i other a e)) ∙ ap (shard_of hash) own in
      ground (
        arith,
        unregister_gone id m v,
        subst (λ j. lookup id ((unregister hash id m).1.shards j) ≡ some a) place
            (subst (λ k. lookup k ((unregister hash id m).1.shards i) ≡ some a) own e),
      )

  pub unregister-IsSound :
      (id : String) (m : StreamManager Event)
      → IsSound m
      → ((unregister hash id m).0 ≡ ok tt) × IsSound (unregister hash id m).1
  unregister-IsSound id m v = (
    unregister_ok id m v,
    record {
      owner = v.owner;
      owned = λ i other a e. v.owned i other a (unregister_entry id m i other a e);
      placed = λ i other a e. v.placed i other a (unregister_entry id m i other a e);
      fresh = λ i other a e.
          subst (λ n. a < n) (sym (next-unregister id m))
            (v.fresh i other a (unregister_entry id m i other a e));
      opened = λ i other a e.
          unregister_closed id m a (unregister_apart id m i other a v e)
          ∙ v.opened i other a (unregister_entry id m i other a e);
      distinct = λ i. unregister-Distinct id m i v;
    },
  )
