-- ===== src/Streams/Sharding.antt =====
-- Any sequence of calls of the stream manager, against one map of the nodes.
use enxame.Streams.Flat.{
  Call, registers, unregisters, broadcasts, broadcasts_shard, Flat, flat_step, flat_run,
  count_below-put, other_shard, shard_below, count_below_empty,
}
use enxame.Base.{
  ℕ, suc, String, ◌≡◌, refl, ◌∙◌, ap, true, false, List, [], ◌∷◌, none, some, arith, eq_iff,
  eq_refl, ◌==◌ as nat_eq, Bool-cases, Option-cases, inl, inr, length,
}
use enxame.Base.Dict.{
  lookup, insert, delete, Distinct, lookup-insert, lookup-delete, insert-Distinct, delete-Distinct,
  length-insert, length-delete,
}
use enxame.Base.Exec.{ok, ◌>>=◌, ◌>>◌, pure}
use enxame.Streams.{
  StreamManager, Method, put, num_shards, shard_of, new_stream_manager, broadcast_shard, broadcast,
  count_below, count, register, unregister, is_registered, close_found,
}
use enxame.Streams.Broadcast.{SameShape, same-IsSound, broadcast_shard-Succeeds, broadcast-Succeeds}
use enxame.Streams.Soundness.{
  IsSound, stream_of, new-IsSound, register-IsSound, unregister-IsSound, next-unregister,
}

module _ (hash : String → ℕ) {Event : Type 0} where
  unfoldable pub step : Call Event → Method Event Unit
  step (registers id) m = (register hash id >>= λ a. pure tt) m
  step (unregisters id) m = unregister hash id m
  step (broadcasts event) m = broadcast event m
  step (broadcasts_shard event i) m = broadcast_shard event i m

  unfoldable pub run : List (Call Event) → Method Event Unit
  run [] = pure tt
  run (c ∷ cs) = do step c; run cs

  record Refines (m : StreamManager Event) (f : Flat) : Type 0 where
    sound : IsSound hash m
    same_streams : (id : String) → stream_of hash m id ≡ lookup id f.streams
    same_next : m.next ≡ f.next
    same_count : count m ≡ length f.streams
    one_each : Distinct f.streams

  register-Refines :
      (id : String) (m : StreamManager Event) (f : Flat)
      → Refines m f
      → Refines (step (registers id) m).1 (flat_step {Event = Event} f (registers id))
  unfolding step register flat_step count
  register-Refines id m f v = record {
    sound = register-IsSound hash id m v.sound;
    same_streams = λ other. elim (Bool-cases (nat_eq (shard_of hash id) (shard_of hash other))) [
      | inl here ↦ ground (
        arith,
        here,
        lookup-insert id other m.next (m.shards (shard_of hash id)),
        lookup-insert id other f.next f.streams,
        v.same_next,
        v.same_streams other,
      )
      | inr away ↦ ground (
        arith,
        away,
        other_shard hash id other away,
        lookup-insert id other f.next f.streams,
        v.same_streams other,
      )
    ];
    same_next = ap suc v.same_next;
    same_count = ground (
      arith,
      count_below-put (shard_of hash id) num_shards (insert id m.next (m.shards (shard_of hash id)))
          m.shards (shard_below hash id),
      length-insert id m.next (m.shards (shard_of hash id)),
      length-insert id f.next f.streams,
      v.same_streams id,
      v.same_count,
    );
    one_each = insert-Distinct id f.next f.streams v.one_each;
  }

  shards-unregister :
      (id : String) (m : StreamManager Event) (b : ℕ)
      → IsSound hash m
      → stream_of hash m id ≡ some b
      → (unregister hash id m).1.shards
        ≡ put (shard_of hash id) (delete id (m.shards (shard_of hash id))) m.shards
  unfolding unregister
  shards-unregister id m b v at =
      rw (at, close_found) (rw (v.opened (shard_of hash id) id b at) refl)

  shards-unregister_absent :
      (id : String) (m : StreamManager Event)
      → stream_of hash m id ≡ none
      → (unregister hash id m).1.shards ≡ m.shards
  unfolding unregister
  shards-unregister_absent id m absent = rw (absent, close_found) refl

  streams-unregister :
      (id other : String) (m : StreamManager Event) (f : Flat)
      → Refines m f
      → stream_of hash (unregister hash id m).1 other ≡ lookup other (delete id f.streams)
  streams-unregister id other m f v = elim (Option-cases (stream_of hash m id)) [
    | inl absent ↦
        ap (λ s. lookup other (s (shard_of hash other))) (shards-unregister_absent id m absent)
        ∙ ground (
          arith,
          absent,
          lookup-delete id other f.streams,
          v.same_streams other,
          v.same_streams id,
          eq_iff id other,
        )
    | inr (b, at) ↦
        ap (λ s. lookup other (s (shard_of hash other))) (shards-unregister id m b v.sound at)
        ∙ elim (Bool-cases (nat_eq (shard_of hash id) (shard_of hash other))) [
          | inl here ↦ ground (
            arith,
            here,
            lookup-delete id other (m.shards (shard_of hash id)),
            lookup-delete id other f.streams,
            v.same_streams other,
          )
          | inr away ↦ ground (
            arith,
            away,
            other_shard hash id other away,
            lookup-delete id other f.streams,
            v.same_streams other,
          )
        ]
  ]

  count-unregister :
      (id : String) (m : StreamManager Event) (f : Flat)
      → Refines m f
      → count (unregister hash id m).1 ≡ length (delete id f.streams)
  unfolding count
  count-unregister id m f v = elim (Option-cases (stream_of hash m id)) [
    | inl absent ↦
        ap (count_below num_shards) (shards-unregister_absent id m absent)
        ∙ ground
            (arith, absent, length-delete id f.streams v.one_each, v.same_streams id, v.same_count)
    | inr (b, at) ↦
        ap (count_below num_shards) (shards-unregister id m b v.sound at)
        ∙ ground (
          arith,
          at,
          count_below-put (shard_of hash id) num_shards (delete id (m.shards (shard_of hash id)))
              m.shards (shard_below hash id),
          length-delete id (m.shards (shard_of hash id)) (v.sound.distinct (shard_of hash id)),
          length-delete id f.streams v.one_each,
          v.same_streams id,
          v.same_count,
        )
  ]

  unregister-Refines :
      (id : String) (m : StreamManager Event) (f : Flat)
      → Refines m f
      → Refines (step (unregisters id) m).1 (flat_step {Event = Event} f (unregisters id))
  unfolding step flat_step count
  unregister-Refines id m f v = record {
    sound = (unregister-IsSound hash id m v.sound).1;
    same_streams = λ other. streams-unregister id other m f v;
    same_next = next-unregister hash id m ∙ v.same_next;
    same_count = count-unregister id m f v;
    one_each = delete-Distinct id f.streams v.one_each;
  }

  same-Refines : (m n : StreamManager Event) (f : Flat) → SameShape m n → Refines m f → Refines n f
  unfolding count
  same-Refines m n f h v = record {
    sound = same-IsSound hash m n h v.sound;
    same_streams =
        λ id. ap (λ s. lookup id (s (shard_of hash id))) h.shards_same ∙ v.same_streams id;
    same_next = h.next_same ∙ v.same_next;
    same_count = ap (count_below num_shards) h.shards_same ∙ v.same_count;
    one_each = v.one_each;
  }

  step-Refines :
      (c : Call Event) (m : StreamManager Event) (f : Flat)
      → Refines m f
      → ((step c m).0 ≡ ok tt) × Refines (step c m).1 (flat_step f c)
  unfolding step flat_step register
  step-Refines (registers id) m f v = (refl, register-Refines id m f v)
  step-Refines (unregisters id) m f v =
      ((unregister-IsSound hash id m v.sound).0, unregister-Refines id m f v)
  step-Refines (broadcasts event) m f v =
      let sent = broadcast-Succeeds hash event m v.sound in
      (sent.0, same-Refines m (broadcast event m).1 f sent.1 v)
  step-Refines (broadcasts_shard event i) m f v =
      let sent = broadcast_shard-Succeeds hash event i m v.sound in
      (sent.0, same-Refines m (broadcast_shard event i m).1 f sent.1 v)

  run-Refines :
      (cs : List (Call Event)) (m : StreamManager Event) (f : Flat)
      → Refines m f
      → ((run cs m).0 ≡ ok tt) × Refines (run cs m).1 (flat_run f cs)
  unfolding run flat_run
  run-Refines [] m f v = (refl, v)
  run-Refines (c ∷ cs) m f v =
      let first = step-Refines c m f v in
      rw first.0 (run-Refines cs (step c m).1 (flat_step f c) first.1)

  new-Refines : (size : ℕ) → Refines (new_stream_manager size) (record { streams = []; next = 0 })
  unfolding new_stream_manager lookup count
  new-Refines size = record {
    sound = new-IsSound hash size;
    same_streams = λ id. refl;
    same_next = refl;
    same_count = count_below_empty num_shards;
    one_each = tt;
  }

  -- From a new manager, no sequence of registrations, departures and broadcasts sends on a closed
  -- channel or closes one twice. After it, the sharded manager finds for each node the channel that
  -- one map of all nodes holds, and counts as many streams as that map has, whatever the hash is.
  pub run-flat_run :
      (size : ℕ) (cs : List (Call Event)) (id : String)
      → ((run cs (new_stream_manager size)).0 ≡ ok tt)
        × (stream_of hash (run cs (new_stream_manager size)).1 id
            ≡ lookup id (flat_run (record { streams = []; next = 0 }) cs).streams)
        × (count (run cs (new_stream_manager size)).1
            ≡ length (flat_run (record { streams = []; next = 0 }) cs).streams)
  run-flat_run size cs id =
      let done = run-Refines cs (new_stream_manager size) _ (new-Refines size) in
      (done.0, done.1.same_streams id, done.1.same_count)

  stream_of-register :
      (id : String) (m : StreamManager Event)
      → (stream_of hash (register hash id m).1 id ≡ some m.next)
        × (((register hash id m).1.heap m.next).closed ≡ false)
  unfolding register
  stream_of-register id m = (
    ground (arith, lookup-insert id id m.next (m.shards (shard_of hash id)), eq_refl id),
    ground arith,
  )

  unregister_known :
      (id : String) (m : StreamManager Event) (a : ℕ)
      → stream_of hash m id ≡ some a
      → (m.heap a).closed ≡ false
      → (((unregister hash id m).1.heap a).closed ≡ true)
        × (is_registered hash id (unregister hash id m).1 ≡ false)
  unfolding unregister is_registered
  unregister_known id m a at open' = (
    ground (arith, at, open'),
    ground (arith, at, open', lookup-delete id id (m.shards (shard_of hash id)), eq_refl id),
  )

  -- After any calls, when a node registers twice and the first of its two streams ends, the channel of
  -- the second is closed and the node is not registered any more.
  pub reconnect_unregister :
      (size : ℕ) (cs : List (Call Event)) (id : String)
      → let m = (run cs (new_stream_manager size)).1 in
        let twice = (register hash id (register hash id m).1).1 in
        ((register hash id (register hash id m).1).0 ≡ ok (suc m.next))
        × (((unregister hash id twice).1.heap (suc m.next)).closed ≡ true)
        × (is_registered hash id (unregister hash id twice).1 ≡ false)
  unfolding register
  reconnect_unregister size cs id =
      let once = (register hash id (run cs (new_stream_manager size)).1).1 in
      let known = stream_of-register id once in
      let left = unregister_known id (register hash id once).1 once.next known.0 known.1 in
      (refl, left.0, left.1)
