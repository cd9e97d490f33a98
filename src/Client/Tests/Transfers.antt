-- ===== src/Client/Tests/Transfers.antt =====
-- A file that a client sends and saves again.
use enxame.Base.{ℕ, zero, suc, ◌<◌, ◌≡◌, refl, List, [], ◌∷◌, some, arith, eq_iff, inl, inr}
use enxame.Base.Word.{format_int}
use enxame.Base.Dict.{lookup}
use enxame.Base.Exec.{ok, err}
use enxame.Client.{stopped}
use enxame.Client.Outbox.{send_payload}
use enxame.Client.Keys.{key_or_empty}
use enxame.Client.Files.{Read, got, path_of, file_id, split_file, send_file, save_file_to_disk}
use enxame.Client.Chunks.{IsReader, Apart}
use enxame.Client.Transfer.{send_file_ends, save_file_to_disk-send_file}
use enxame.Client.Tests.{lib, world, ana_with_eva}

-- A file of two bytes, which is read one by one.
abbrev read_one : List ℕ → Read
read_one [] = got []
read_one (b ∷ bs) = got (b ∷ [])

read_one-IsReader : IsReader read_one
read_one-IsReader [] = inr (inl (refl, refl))
read_one-IsReader (b ∷ bs) = inr (inr (b, [], bs, refl, refl))

abbrev content : List ℕ
content = 7 ∷ 8 ∷ []

apart : Apart lib "file_1000" 2
unfolding format_int
apart zero zero h k e = refl
apart zero (suc zero) h k e = absurd (ground (arith, e, eq_iff "file_1000_0.dat" "file_1000_1.dat"))
apart (suc zero) zero h k e = absurd (ground (arith, e, eq_iff "file_1000_1.dat" "file_1000_0.dat"))
apart (suc zero) (suc zero) h k e = refl
apart zero (suc (suc j)) h k e = absurd (omega arith)
apart (suc zero) (suc (suc j)) h k e = absurd (omega arith)
apart (suc (suc i)) j h k e = absurd (omega arith)

outside : (i : ℕ) → i < 2 → path_of lib "file_1000" i ≡ "out" → ⊥
unfolding format_int
outside zero h e = ground (arith, e, eq_iff "file_1000_0.dat" "out")
outside (suc zero) h e = ground (arith, e, eq_iff "file_1000_1.dat" "out")
outside (suc (suc i)) h e = omega arith

send_file_ends_example :
    (send_file lib (world []) read_one "eva" "notes" (some content) ana_with_eva).0 ≡ err stopped
    → ⊥
send_file_ends_example =
    send_file_ends lib (world []) read_one "eva" "notes" content ana_with_eva read_one-IsReader

sent_file : (send_file lib (world []) read_one "eva" "notes" (some content) ana_with_eva).0 ≡ ok tt
unfolding send_file split_file send_payload key_or_empty lookup
sent_file = refl

save_file_to_disk-send_file_example :
    let sent = (send_file lib (world []) read_one "eva" "notes" (some content) ana_with_eva).1 in
    ((save_file_to_disk lib (world []) "file_1000" "out" sent).0 ≡ ok tt)
    × (lookup "out" (save_file_to_disk lib (world []) "file_1000" "out" sent).1.files
        ≡ some content)
unfolding file_id
save_file_to_disk-send_file_example =
    save_file_to_disk-send_file lib (world []) (world []) read_one "eva" "notes" "out" content
      ana_with_eva read_one-IsReader apart outside (λ i h. refl) refl sent_file
