-- ===== src/Client/Transfer.antt =====
-- SaveFileToDisk puts together what SendFile has split.
use enxame.Base.{
  ℕ, suc, ◌<◌, String, ◌≡◌, ◌≢◌, refl, sym, ap, ◌∙◌, false, List, [], ◌∷◌, ◌++◌, some, arith,
  eq_iff, eq_refl, inl, inr, length, Bool-cases,
}
use enxame.Base.Dict.{Dict, lookup, insert, lookup-insert}
use enxame.Base.Exec.{ok, err}
use enxame.Client.{EnxameClient, ChunkMeta, FileManifest, Library, World, stopped, is_channel}
use enxame.Client.Outbox.{send, send_payload}
use enxame.Client.Files.{
  Read, Split, out_of_fuel, broken, into, path_of, split_file, save_chunks, append_to, manifest_of,
  send_manifest, file_id, send_file, save_file_to_disk,
}
use enxame.Client.Handlers.{bytes_or_nil}
use enxame.Client.Chunks.{IsReader, Apart, Holds, split_file-Holds, split_file_ends}
use mathlib.Core.List.{append_assoc, append-nil}

module _ (lib : Library) where
  module _ (id dest : String) (n : ℕ)
      (outside : (i : ℕ) → i < n → path_of lib id i ≡ dest → ⊥) where
    insert-Holds :
        (bytes rest : List ℕ) (files : Dict (List ℕ)) (ms : List ChunkMeta)
        → Holds lib id n files ms rest
        → Holds lib id n (insert dest bytes files) ms rest
    insert-Holds bytes rest files [] h = h
    insert-Holds bytes rest files (m ∷ ms) (chunk, tail, below, held, good, parts, more) = (
      chunk,
      tail,
      below,
      ground (
        arith,
        held,
        outside m.index below,
        eq_iff dest (path_of lib id m.index),
        lookup-insert dest (path_of lib id m.index) bytes files,
      ),
      good,
      parts,
      insert-Holds bytes tail files ms more,
    )

    save_chunks-Holds :
        (ms : List ChunkMeta) (files : Dict (List ℕ)) (before rest : List ℕ)
        → Holds lib id n files ms rest
        → lookup dest files ≡ some before
        → ((save_chunks lib id dest ms files).0 ≡ ok tt)
          × (lookup dest (save_chunks lib id dest ms files).1 ≡ some (before ++ rest))
    unfolding save_chunks
    save_chunks-Holds [] files before rest h k =
        (refl, k ∙ ap some (sym (append-nil before) ∙ ap (λ x. before ++ x) (sym h)))
    save_chunks-Holds (m ∷ ms) files before rest (chunk, tail, below, held, good, parts, more) k =
        let later =
          save_chunks-Holds ms (append_to lib dest chunk files) (before ++ chunk) tail
            (insert-Holds (bytes_or_nil (lookup dest files) ++ chunk) tail files ms more)
            (ground (
              arith,
              k,
              eq_refl dest,
              lookup-insert dest dest (bytes_or_nil (lookup dest files) ++ chunk) files,
            )) in
        let joined : (before ++ chunk) ++ tail ≡ before ++ rest =
          append_assoc before chunk tail ∙ ap (λ x. before ++ x) (sym parts) in
        (
          ground (arith, held, good, eq_refl m.hash, later.0),
          ground (arith, held, good, eq_refl m.hash, later.1, joined),
        )

  send_manifest_lem :
      (w : World) (target : String) (manifest : FileManifest) (c : EnxameClient)
      → (send_manifest lib w target manifest c).0 ≡ ok tt
      → (lookup manifest.file_id (send_manifest lib w target manifest c).1.manifests
          ≡ some manifest)
        × ((send_manifest lib w target manifest c).1.files ≡ c.files)
  unfolding send_payload send
  send_manifest_lem w target manifest c h =
      let now = lookup-insert manifest.file_id manifest.file_id manifest c.manifests in
      elim (Bool-cases (is_channel target)) [
        | inl yes' ↦ ground (arith, h, yes', eq_refl manifest.file_id, now)
        | inr no' ↦ ground (arith, h, no', eq_refl manifest.file_id, now)
      ]

  -- The chunks of a content, and the files with them.
  abbrev split_of : World → (List ℕ → Read) → List ℕ → EnxameClient → Split × Dict (List ℕ)
  split_of w read content c =
      split_file lib w read (file_id w) (suc (length content)) 0 content c.files

  send_file_lem :
      (w : World) (read : List ℕ → Read) (target path : String) (content : List ℕ)
      (c : EnxameClient)
      → (send_file lib w read target path (some content) c).0 ≡ ok tt
      → (ms : List ChunkMeta) × ((split_of w read content c).0 ≡ into ms)
        × (let sent =
              send_manifest lib w target
                (manifest_of lib w path content ms c)
                (record c { files = (split_of w read content c).1 }) in
            (sent.0 ≡ ok tt) × ((send_file lib w read target path (some content) c).1 ≡ sent.1))
  unfolding send_file
  send_file_lem w read target path content c h = by_split (split_of w read content c).0 refl
    where
      by_split :
          (s : Split)
          → (split_of w read content c).0 ≡ s
          → (ms : List ChunkMeta) × ((split_of w read content c).0 ≡ into ms)
            × (let sent =
                  send_manifest lib w target
                    (manifest_of lib w path content ms c)
                    (record c { files = (split_of w read content c).1 }) in
                (sent.0 ≡ ok tt) × ((send_file lib w read target path (some content) c).1 ≡ sent.1))
      by_split out_of_fuel e = ground (arith, e, h)
      by_split broken e = ground (arith, e, h)
      by_split (into ms) e = (ms, e, (ground (arith, e, h), ground (arith, e, h)))

  send_manifest_ends :
      (w : World) (target : String) (manifest : FileManifest) (c : EnxameClient)
      → (send_manifest lib w target manifest c).0 ≡ err stopped
      → ⊥
  unfolding send_payload send
  send_manifest_ends w target manifest c h = elim (Bool-cases (is_channel target)) [
    | inl yes' ↦ ground (arith, h, yes')
    | inr no' ↦ ground (arith, h, no')
  ]

  -- SendFile always ends: the loop needs no more rounds than the content has bytes, and one.
  pub send_file_ends :
      (w : World) (read : List ℕ → Read) (target path : String) (content : List ℕ)
      (c : EnxameClient)
      → IsReader read
      → (send_file lib w read target path (some content) c).0 ≢ err stopped
  unfolding send_file
  send_file_ends w read target path content c reads e = by_split (split_of w read content c).0 refl
    where
      by_split : (s : Split) → (split_of w read content c).0 ≡ s → ⊥
      by_split out_of_fuel k =
          split_file_ends lib w read (file_id w) (suc (length content)) 0 content c.files reads
            (omega arith) k
      by_split broken k = ground (arith, e, k)
      by_split (into ms) k =
          send_manifest_ends w target (manifest_of lib w path content ms c)
            (record c { files = (split_of w read content c).1 }) (ground (arith, e, k))

  save_file_to_disk_lem :
      (v : World) (id dest : String) (manifest : FileManifest) (c : EnxameClient)
      → lookup id c.manifests ≡ some manifest
      → v.write_fails dest ≡ false
      → let saved = save_chunks lib id dest manifest.chunks (insert dest [] c.files) in
        ((save_file_to_disk lib v id dest c).0 ≡ saved.0)
        × ((save_file_to_disk lib v id dest c).1.files ≡ saved.1)
  unfolding save_file_to_disk
  save_file_to_disk_lem v id dest manifest c h k = ground (arith, h, k)

  -- What SendFile split, SaveFileToDisk puts together: after a file was sent, saving it succeeds and
  -- leaves its content at the destination, however the reads cut it, if the chunks could be written, have
  -- different paths, and none is the destination.
  pub save_file_to_disk-send_file :
      (w v : World) (read : List ℕ → Read) (target path dest : String) (content : List ℕ)
      (c : EnxameClient)
      → IsReader read
      → Apart lib (file_id w) (length content)
      → ((i : ℕ) → i < length content → path_of lib (file_id w) i ≡ dest → ⊥)
      → ((i : ℕ) → i < length content → w.write_fails (path_of lib (file_id w) i) ≡ false)
      → v.write_fails dest ≡ false
      → (send_file lib w read target path (some content) c).0 ≡ ok tt
      → let sent = (send_file lib w read target path (some content) c).1 in
        ((save_file_to_disk lib v (file_id w) dest sent).0 ≡ ok tt)
        × (lookup dest (save_file_to_disk lib v (file_id w) dest sent).1.files ≡ some content)
  save_file_to_disk-send_file w v read target path dest content c reads apart outside writes creates
        h =
      let (ms, e, (good, same)) = send_file_lem w read target path content c h in
      let files' = (split_of w read content c).1 in
      let held =
        split_file-Holds lib (file_id w) (length content) w read (suc (length content)) 0 content
          c.files ms reads apart writes (omega arith) e in
      let manifest = manifest_of lib w path content ms c in
      let (listed, kept) = send_manifest_lem w target manifest (record c { files = files' }) good in
      let sent = (send_file lib w read target path (some content) c).1 in
      let (first, last) =
        save_file_to_disk_lem v (file_id w) dest manifest sent
          (ap (λ x. lookup (file_id w) x.manifests) same ∙ listed) creates in
      let files-sent : sent.files ≡ files' = ap (λ x. x.files) same ∙ kept in
      let saved =
        save_chunks-Holds (file_id w) dest (length content) outside ms (insert dest [] files') []
          content (insert-Holds (file_id w) dest (length content) outside [] content files' ms held)
          (ground (arith, lookup-insert dest dest [] files', eq_refl dest)) in
      (
        first
            ∙ ap (λ x. (save_chunks lib (file_id w) dest ms (insert dest [] x)).0) files-sent
            ∙ saved.0,
        ap (lookup dest) (
              last
              ∙ ap (λ x. (save_chunks lib (file_id w) dest ms (insert dest [] x)).1) files-sent)
            ∙ saved.1,
      )
