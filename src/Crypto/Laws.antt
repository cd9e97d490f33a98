-- ===== src/Crypto/Laws.antt =====
-- When signatures are accepted.
use enxame.Base.{
  ℕ, String, ◌≡◌, refl, true, List, [], ◌∷◌, none, some, arith, eq_iff, length, Option-cases, inl,
  inr,
}
use enxame.Base.Dict.{Dict, lookup}
use enxame.Crypto.{
  Primitives, same_bytes, derive_node_id, verify_signature, verify_node_identity,
  verify_master_signature,
}

same_bytes_sound : (xs ys : List ℕ) → same_bytes xs ys ≡ true → length xs ≡ length ys → xs ≡ ys
same_bytes_sound [] [] h e = refl
same_bytes_sound [] (y ∷ ys) h e = ground arith
same_bytes_sound (x ∷ xs) [] h e = ground arith
same_bytes_sound (x ∷ xs) (y ∷ ys) h e = ground (arith, same_bytes_sound xs ys)

module _ (p : Primitives) where
  pub verify_signature_lem :
      (public_key : List ℕ) (message : String) (signature : List ℕ)
      → verify_signature p public_key message signature ≡ none
      → (length public_key ≡ 32)
        × (length signature ≡ 64)
        × (p.verify public_key message signature ≡ true)
  unfolding verify_signature
  verify_signature_lem public_key message signature h = ground arith

  pub verify_node_identity_lem :
      (node_id : String) (public_key signature : List ℕ)
      → verify_node_identity p node_id public_key signature ≡ none
      → (node_id ≡ derive_node_id p public_key)
        × (length public_key ≡ 32)
        × (length signature ≡ 64)
        × (p.verify public_key node_id signature ≡ true)
  unfolding verify_node_identity verify_signature
  verify_node_identity_lem node_id public_key signature h =
      ground (arith, eq_iff node_id (derive_node_id p public_key))

  -- With master keys of 32 bytes, a master signature is accepted only if the key itself is the one that
  -- is kept under its id, and Ed25519 accepts the signature of 64 bytes on the message.
  pub verify_master_signature_lem :
      (master_keys : Dict (List ℕ)) (public_key : List ℕ) (message : String) (signature : List ℕ)
      → ((id : String) (key : List ℕ) → lookup id master_keys ≡ some key → length key ≡ 32)
      → verify_master_signature p master_keys public_key message signature ≡ none
      → (lookup (derive_node_id p public_key) master_keys ≡ some public_key)
        × (length signature ≡ 64)
        × (p.verify public_key message signature ≡ true)
  unfolding verify_master_signature verify_signature
  verify_master_signature_lem master_keys public_key message signature sized h =
      elim (Option-cases (lookup (derive_node_id p public_key) master_keys)) [
        | inl absent ↦ ground (arith, absent)
        | inr (key, found) ↦
            ground (
              arith,
              found,
              sized (derive_node_id p public_key) key,
              same_bytes_sound key public_key,
            )
      ]
