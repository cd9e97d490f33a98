-- ===== src/Client/Files.antt =====
-- Files in chunks: SendFile and SaveFileToDisk in client.go.
use enxame.Base.{
  ℕ, zero, suc, ◌+◌, String, List, [], ◌∷◌, ◌++◌, Option, none, some, if◌then◌else◌, ltb, length,
  drop,
}
use enxame.Base.Text.{◌==◌}
use enxame.Base.Dict.{Dict, lookup, insert}
use enxame.Base.Word.{format_int}
use enxame.Base.Exec.{choose, Outcome, ok, err, ◌>>=◌, ◌>>◌, pure, fail, gets, modify, refuse_if}
use enxame.Crypto.{hex_encode}
use enxame.E2e.{encrypt}
use enxame.Storage.{store_message, upsert_dm_session}
use enxame.Client.{
  EnxameClient, ChunkMeta, FileManifest, Library, World, Client, ClientError, file, no_channel_key,
  open_failed, stopped, file_too_large, read_failed, manifest_not_found, missing_chunk,
  hash_mismatch, create_failed, machine_of, ignoring, is_channel,
}
use enxame.Client.Outbox.{send_payload, message_id}
use enxame.Client.Keys.{key_or_empty}
use enxame.Client.Handlers.{skip, storage_target, bytes_or_nil}
use enxame.Client.Updates.{chunk_name, file_message}
use enxame.Client.Sending.{is_empty}
use Prim.Native.String

-- One f.Read on what is left of a file: an error, or the bytes that were read, none at its end.
pub data Read : Type 0 where
  failed : Read
  got : List ℕ → Read

-- What becomes of the loop that reads the file: the fuel runs out, a read fails, or the chunks.
pub data Split : Type 0 where
  out_of_fuel broken : Split
  into : List ChunkMeta → Split

-- 10 * 1024 * 1024
abbrev pub size_limit : ℕ
size_limit = 10485760

-- fmt.Sprintf("file_%d", now)
unfoldable pub file_id : World → String
unfolding format_int
file_id w = String.◌++◌ "file_" (format_int w.now)

module _ (lib : Library) where
  -- hex.EncodeToString of a SHA-256 sum.
  abbrev pub chunk_hash : List ℕ → String
  chunk_hash bytes = hex_encode (lib.e2e.sha256 bytes)

  abbrev pub path_of : String → ℕ → String
  path_of id index = lib.chunk_path (chunk_name id (format_int index))

  abbrev pub add_chunk : ChunkMeta → Split → Split
  add_chunk m out_of_fuel = out_of_fuel
  add_chunk m broken = broken
  add_chunk m (into ms) = into (m ∷ ms)

  abbrev pub put_chunk : World → String → List ℕ → Dict (List ℕ) → Dict (List ℕ)
  put_chunk w path bytes files = if w.write_fails path then files else insert path bytes files

  -- The loop of SendFile on what is left of the file.
  unfoldable pub split_file :
      World → (List ℕ → Read) → String → ℕ → ℕ → List ℕ → Dict (List ℕ) → Split × Dict (List ℕ)
  split_file w read id zero index rest files = (out_of_fuel, files)
  split_file w read id (suc fuel) index rest files = elim (read rest) [
    | failed ↦ (broken, files)
    | got [] ↦ (into [], files)
    | got (b ∷ bs) ↦
        let more =
          split_file w read id fuel (index + 1) (drop (length (b ∷ bs)) rest)
            (put_chunk w (path_of id index) (b ∷ bs) files) in
        (add_chunk (record { index = index; hash = chunk_hash (b ∷ bs) }) more.0, more.1)
  ]

  abbrev pub chunks_of : Split → Client (List ChunkMeta)
  chunks_of out_of_fuel = fail stopped
  chunks_of broken = fail read_failed
  chunks_of (into ms) = pure ms

  abbrev pub split : World → (List ℕ → Read) → String → List ℕ → Client (List ChunkMeta)
  split w read id content c =
      let result = split_file w read id (suc (length content)) 0 content c.files in
      chunks_of result.0 (record c { files = result.1 })

  abbrev pub manifest_of : World → String → List ℕ → List ChunkMeta → EnxameClient → FileManifest
  manifest_of w path content chunks c = record {
    file_id = file_id w;
    name = lib.base_name path;
    size = length content;
    chunks = chunks;
    sender_id = c.node_id;
  }

  -- The manifest is sent and, as a message, stored.
  abbrev pub send_manifest : World → String → FileManifest → Client Unit
  send_manifest w target manifest = do
    place ← gets (storage_target lib target target)
    choose (is_channel target) skip (ignoring (upsert_dm_session (machine_of w) place target))
    key ← gets (key_or_empty w target target)
    refuse_if (is_empty key) no_channel_key
    id ← send_payload lib w target (record {
      kind = file;
      content = bytes_or_nil (encrypt lib.e2e w.nonce key (lib.manifests.marshal manifest));
    })
    sender ← gets (λ c. c.node_id)
    ignoring (store_message (machine_of w) (message_id w) sender place (file_message manifest))
    modify λ c. record c { manifests = insert manifest.file_id manifest c.manifests }

  abbrev opened : Option (List ℕ) → Client (List ℕ)
  opened none = fail open_failed
  opened (some content) = pure content

  -- The file at a path, if it can be opened.
  unfoldable pub send_file :
      World → (List ℕ → Read) → String → String → Option (List ℕ) → Client Unit
  send_file w read target path found_file = do
    content ← opened found_file
    refuse_if (ltb size_limit (length content)) file_too_large
    chunks ← split w read (file_id w) content
    manifest ← gets (manifest_of w path content chunks)
    send_manifest w target manifest

  abbrev pub append_to : String → List ℕ → Dict (List ℕ) → Dict (List ℕ)
  append_to path bytes files = insert path (bytes_or_nil (lookup path files) ++ bytes) files

  -- The loop of SaveFileToDisk.
  unfoldable pub save_chunks :
      String → String → List ChunkMeta → Dict (List ℕ) → Outcome ClientError Unit × Dict (List ℕ)
  save_chunks id dest [] files = (ok tt, files)
  save_chunks id dest (m ∷ ms) files = elim (lookup (path_of id m.index) files) [
    | none ↦ (err missing_chunk, files)
    | some bytes ↦
        let rest = save_chunks id dest ms (append_to dest bytes files) in
        if chunk_hash bytes == m.hash then rest else (err hash_mismatch, files)
  ]

  abbrev save_into : World → String → String → Option FileManifest → Client Unit
  save_into w id dest none c = fail manifest_not_found c
  save_into w id dest (some manifest) c =
      if w.write_fails dest
      then fail create_failed c
      else let saved = save_chunks id dest manifest.chunks (insert dest [] c.files) in
        (saved.0, record c { files = saved.1 })

  -- A file that can be created can be written.
  unfoldable pub save_file_to_disk : World → String → String → Client Unit
  save_file_to_disk w id dest = do
    manifest ← gets (λ c. lookup id c.manifests)
    save_into w id dest manifest
