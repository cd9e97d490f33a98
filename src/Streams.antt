-- ===== src/Streams.antt =====
-- The streams of global events: StreamManager in internal/server/stream_manager.go. FNV-1a comes as a
-- parameter; a channel is an address into a heap.
use enxame.Base.{
  ℕ, zero, suc, ◌+◌, ◌%◌, String, Bool, true, false, List, [], ◌∷◌, ◌++◌, Option, none, some, ltb,
  if◌then◌else◌, ◌==◌, length, is_some,
}
use enxame.Base.Dict.{Dict, lookup, insert, delete, has}
use enxame.Base.Exec.{Outcome, ok, err, panic, Exec, ◌>>=◌, ◌>>◌, pure, abort, gets, modify}
pub mod Soundness
pub mod Broadcast
pub mod Flat
pub mod Sharding
mod Tests

pub record Chan (Event : Type 0) : Type 0 where
  pub buffer : List Event
  pub closed : Bool

-- The array of shards is a function of the index.
pub record StreamManager (Event : Type 0) : Type 0 where
  pub shards : ℕ → Dict ℕ
  pub buffer_size : ℕ
  pub heap : ℕ → Chan Event
  pub next : ℕ

abbrev pub num_shards : ℕ
num_shards = 256

abbrev pub put : {A : Type 0} → ℕ → A → (ℕ → A) → ℕ → A
put i x f j = if i == j then x else f j

abbrev pub empty_chan : {Event : Type 0} → Chan Event
empty_chan = record { buffer = []; closed = false }

unfoldable pub new_stream_manager : {Event : Type 0} → ℕ → StreamManager Event
new_stream_manager size = record {
  shards = λ i. [];
  buffer_size = size;
  heap = λ a. empty_chan;
  next = 0;
}

-- Methods that return no error, and may panic.
abbrev pub Method : Type 0 → Type 0 → Type 0
Method Event A = Exec (StreamManager Event) Unit A

unfoldable pub count_below : ℕ → (ℕ → Dict ℕ) → ℕ
count_below zero shards = 0
count_below (suc i) shards = length (shards i) + count_below i shards

abbrev pub shard_of : (String → ℕ) → String → ℕ
shard_of hash id = hash id % num_shards

module _ {Event : Type 0} where
  -- A send in a select with a default: on a full channel the event is dropped.
  unfoldable pub offer : Event → ℕ → Method Event Unit
  offer event a m =
      if (m.heap a).closed
      then (panic, m)
      else if ltb (length (m.heap a).buffer) m.buffer_size
      then (
        ok tt,
        record m {
          heap = put a (record { buffer = (m.heap a).buffer ++ event ∷ []; closed = false }) m.heap;
        },
      )
      else (ok tt, m)

  unfoldable pub offer_all : Event → Dict ℕ → Method Event Unit
  offer_all event [] = pure tt
  offer_all event ((id, a) ∷ rest) = do offer event a; offer_all event rest

  -- The goroutine of one shard.
  unfoldable pub broadcast_shard : Event → ℕ → Method Event Unit
  broadcast_shard event i = do streams ← gets (λ m. m.shards i); offer_all event streams

  -- The shards below an index, in one of the orders in which their goroutines may run.
  unfoldable pub broadcast_below : Event → ℕ → Method Event Unit
  broadcast_below event zero = pure tt
  broadcast_below event (suc i) = do broadcast_shard event i; broadcast_below event i

  unfoldable pub broadcast : Event → Method Event Unit
  broadcast event = broadcast_below event num_shards

  unfoldable pub count : StreamManager Event → ℕ
  count m = count_below num_shards m.shards

  -- The channel that the caller reads.
  unfoldable pub register : (String → ℕ) → String → Method Event ℕ
  register hash id m = (
    ok m.next,
    record m {
      shards = put (shard_of hash id) (insert id m.next (m.shards (shard_of hash id))) m.shards;
      heap = put m.next empty_chan m.heap;
      next = suc m.next;
    },
  )

  -- Closing a closed channel panics.
  abbrev pub close_found : (String → ℕ) → String → Option ℕ → Method Event Unit
  close_found hash id none m = (ok tt, m)
  close_found hash id (some a) m = if (m.heap a).closed then (panic, m) else (
    ok tt,
    record m {
      shards = put (shard_of hash id) (delete id (m.shards (shard_of hash id))) m.shards;
      heap = put a (record { buffer = (m.heap a).buffer; closed = true }) m.heap;
    },
  )

  unfoldable pub unregister : (String → ℕ) → String → Method Event Unit
  unregister hash id m = close_found hash id (lookup id (m.shards (shard_of hash id))) m

  unfoldable pub is_registered : (String → ℕ) → String → StreamManager Event → Bool
  is_registered hash id m = has id (m.shards (shard_of hash id))
