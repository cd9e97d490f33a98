-- ===== src/Client/Chunks.antt =====
-- The loop of SendFile: it ends, and the chunks that it writes make up the file.
use enxame.Base.{
  ℕ, zero, suc, ◌+◌, ◌<◌, ◌≤◌, String, ◌≡◌, ◌≢◌, ◌⊎◌, subst, refl, sym, ap, ◌∙◌, false, List, [],
  ◌∷◌, ◌++◌, some, arith, eq_iff, eq_refl, inl, inr, length, length-append, drop, drop-append,
}
use enxame.Base.Dict.{Dict, lookup, lookup-insert}
use enxame.Client.{ChunkMeta, Library, World}
use enxame.Client.Files.{
  Read, failed, got, Split, out_of_fuel, broken, into, chunk_hash, path_of, split_file, put_chunk,
  add_chunk,
}

-- A read gives a part of what is left from its beginning, and nothing only at the end.
abbrev pub IsReader : (List ℕ → Read) → Type 0
IsReader read =
    (rest : List ℕ)
    → (read rest ≡ failed)
      ⊎ ((rest ≡ []) × (read rest ≡ got [])
          ⊎ (b : ℕ) × (bs : List ℕ) × (tail : List ℕ) × (read rest ≡ got (b ∷ bs))
            × (rest ≡ (b ∷ bs) ++ tail))

module _ (lib : Library) where
  pub split_file_ends :
      (w : World) (read : List ℕ → Read) (id : String) (fuel index : ℕ) (rest : List ℕ)
      (files : Dict (List ℕ))
      → IsReader read
      → length rest < fuel
      → (split_file lib w read id fuel index rest files).0 ≢ out_of_fuel
  unfolding split_file
  split_file_ends w read id zero index rest files reads h e = omega arith
  split_file_ends w read id (suc fuel) index rest files reads h e = elim (reads rest) [
    | inl fails ↦ ground (arith, fails, e)
    | inr (inl (done, nothing)) ↦ ground (arith, nothing, e)
    | inr (inr (b, bs, tail, part, parts)) ↦
        let left : drop (length (b ∷ bs)) rest ≡ tail =
          ap (drop (length (b ∷ bs))) parts ∙ drop-append (b ∷ bs) tail in
        let sizes = ap length parts ∙ length-append (b ∷ bs) tail in
        split_file_ends w read id fuel (index + 1) (drop (length (b ∷ bs)) rest)
          (put_chunk lib w (path_of lib id index) (b ∷ bs) files) reads
          (ground (arith, left, sizes, h)) (ground (arith, part, e))
  ]

  add_chunk-into :
      (m : ChunkMeta) (s : Split) (ms : List ChunkMeta)
      → add_chunk lib m s ≡ into ms
      → (rest : List ChunkMeta) × (s ≡ into rest) × (ms ≡ m ∷ rest)
  add_chunk-into m out_of_fuel ms h = ground (arith, h)
  add_chunk-into m broken ms h = ground (arith, h)
  add_chunk-into m (into rest) ms h = (rest, refl, ground (arith, h))

  split_file_part :
      (id : String) (w : World) (read : List ℕ → Read) (fuel index : ℕ) (rest : List ℕ)
      (files : Dict (List ℕ)) (b : ℕ) (bs : List ℕ)
      → read rest ≡ got (b ∷ bs)
      → let more =
          split_file lib w read id fuel
            (index + 1)
            (drop (length (b ∷ bs)) rest)
            (put_chunk lib w (path_of lib id index) (b ∷ bs) files) in
        ((split_file lib w read id (suc fuel) index rest files).0
          ≡ add_chunk lib (record { index = index; hash = chunk_hash lib (b ∷ bs) }) more.0)
        × ((split_file lib w read id (suc fuel) index rest files).1 ≡ more.1)
  unfolding split_file
  split_file_part id w read fuel index rest files b bs part = ground (arith, part)

  module _ (id : String) (n : ℕ) where
    -- The chunks of one file have different paths.
    abbrev pub Apart : Type 0
    Apart = (i j : ℕ) → i < n → j < n → path_of lib id i ≡ path_of lib id j → i ≡ j

    -- The files hold the chunks, which put together are the content.
    abbrev pub Holds : Dict (List ℕ) → List ChunkMeta → List ℕ → Type 0
    Holds files [] rest = rest ≡ []
    Holds files (m ∷ ms) rest =
        (bytes : List ℕ) × (tail : List ℕ) × (m.index < n)
        × (lookup (path_of lib id m.index) files ≡ some bytes)
        × (chunk_hash lib bytes ≡ m.hash)
        × (rest ≡ bytes ++ tail)
        × Holds files ms tail

    put_chunk-lookup :
        (w : World) (i j : ℕ) (bytes : List ℕ) (files : Dict (List ℕ))
        → Apart
        → i < j
        → j < n
        → lookup (path_of lib id i) (put_chunk lib w (path_of lib id j) bytes files)
          ≡ lookup (path_of lib id i) files
    put_chunk-lookup w i j bytes files apart h k =
        let same : path_of lib id j ≡ path_of lib id i → ⊥ =
          λ e. let less : i < n = omega arith in omega (arith, apart j i k less e) in
        ground (
          arith,
          lookup-insert (path_of lib id j) (path_of lib id i) bytes files,
          eq_iff (path_of lib id j) (path_of lib id i),
          same,
        )

    split_file-lookup :
        (w : World) (read : List ℕ → Read) (fuel index i : ℕ) (rest : List ℕ)
        (files : Dict (List ℕ))
        → IsReader read
        → Apart
        → i < index
        → index + length rest ≤ n
        → lookup (path_of lib id i) (split_file lib w read id fuel index rest files).1
          ≡ lookup (path_of lib id i) files
    unfolding split_file
    split_file-lookup w read zero index i rest files reads apart h k = refl
    split_file-lookup w read (suc fuel) index i rest files reads apart h k = elim (reads rest) [
      | inl fails ↦ ground (arith, fails)
      | inr (inl (done, nothing)) ↦ ground (arith, nothing)
      | inr (inr (b, bs, tail, part, parts)) ↦
          let left : drop (length (b ∷ bs)) rest ≡ tail =
            ap (drop (length (b ∷ bs))) parts ∙ drop-append (b ∷ bs) tail in
          let sizes = ap length parts ∙ length-append (b ∷ bs) tail in
          let later =
            split_file-lookup w read fuel (index + 1) i (drop (length (b ∷ bs)) rest)
              (put_chunk lib w (path_of lib id index) (b ∷ bs) files) reads apart (omega arith)
              (ground (arith, left, sizes, k)) in
          let now = put_chunk-lookup w i index (b ∷ bs) files apart h (ground (arith, sizes, k)) in
          ground (arith, part, later, now)
    ]

    pub split_file-Holds :
        (w : World) (read : List ℕ → Read) (fuel index : ℕ) (rest : List ℕ) (files : Dict (List ℕ))
        (ms : List ChunkMeta)
        → IsReader read
        → Apart
        → ((i : ℕ) → i < n → w.write_fails (path_of lib id i) ≡ false)
        → index + length rest ≤ n
        → (split_file lib w read id fuel index rest files).0 ≡ into ms
        → Holds (split_file lib w read id fuel index rest files).1 ms rest
    unfolding split_file
    split_file-Holds w read zero index rest files ms reads apart writes k e = ground (arith, e)
    split_file-Holds w read (suc fuel) index rest files ms reads apart writes k e =
        elim (reads rest) [
          | inl fails ↦ ground (arith, fails, e)
          | inr (inl (done, nothing)) ↦
              let none_left : ms ≡ [] = ground (arith, nothing, e) in
              subst (λ x. Holds (split_file lib w read id (suc fuel) index rest files).1 x rest)
                (sym none_left) done
          | inr (inr (b, bs, tail, part, parts)) ↦
              let left : drop (length (b ∷ bs)) rest ≡ tail =
                ap (drop (length (b ∷ bs))) parts ∙ drop-append (b ∷ bs) tail in
              let sizes : length rest ≡ suc (length bs) + length tail =
                ap length parts ∙ length-append (b ∷ bs) tail in
              let fits : index + 1 + length (drop (length (b ∷ bs)) rest) ≤ n =
                rw left (omega arith) in
              let below : index < n = omega arith in
              let put = put_chunk lib w (path_of lib id index) (b ∷ bs) files in
              let step = split_file_part id w read fuel index rest files b bs part in
              let (ms', e', same) = add_chunk-into _ _ ms (sym step.0 ∙ e) in
              let later =
                split_file-Holds w read fuel (index + 1) (drop (length (b ∷ bs)) rest) put ms' reads
                  apart writes fits e' in
              let after : Dict (List ℕ) =
                (split_file lib w read id fuel (index + 1) (drop (length (b ∷ bs)) rest) put).1 in
              let kept =
                split_file-lookup w read fuel (index + 1) index (drop (length (b ∷ bs)) rest) put
                  reads apart (omega arith) fits in
              let written : lookup (path_of lib id index) put ≡ some (b ∷ bs) = ground (
                arith,
                writes index below,
                lookup-insert (path_of lib id index) (path_of lib id index) (b ∷ bs) files,
                eq_refl (path_of lib id index),
              ) in
              subst (λ x. Holds x ms rest) (sym step.1)
                (subst (λ x. Holds after x rest) (sym same)
                  (
                    b ∷ bs,
                    tail,
                    below,
                    kept ∙ written,
                    refl,
                    parts,
                    subst (λ x. Holds after ms' x) left later,
                  ))
        ]
