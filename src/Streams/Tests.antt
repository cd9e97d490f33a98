-- ===== src/Streams/Tests.antt =====
-- Two nodes whose ids fall into one shard.
use enxame.Base.{ℕ, ◌≡◌, false, List, [], ◌∷◌, len, length}
use enxame.Streams.{new_stream_manager, count, is_registered, register, unregister}
use enxame.Streams.Flat.{Call, registers, unregisters, broadcasts, broadcasts_shard, flat_run}
use enxame.Streams.Sharding.{run, run-flat_run, reconnect_unregister}

-- Lengths in place of hashes, and numbers in place of events.
abbrev calls : List (Call ℕ)
calls =
    registers "ana" ∷ registers "eva" ∷ broadcasts_shard 5 3 ∷ unregisters "ana" ∷ broadcasts 7 ∷ []

run-flat_run_example :
    count (run len calls (new_stream_manager 2)).1
    ≡ length (flat_run (record { streams = []; next = 0 }) calls).streams
run-flat_run_example = (run-flat_run len 2 calls "eva").2

reconnect_unregister_example :
    is_registered len "ana"
      (unregister len "ana"
        (register len "ana" (register len "ana" (run len calls (new_stream_manager 2)).1).1).1).1
    ≡ false
reconnect_unregister_example = (reconnect_unregister len 2 calls "ana").2
