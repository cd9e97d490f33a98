-- ===== src/E2e.antt =====
-- End-to-end encryption: pkg/crypto/e2e/e2e.go. X25519, SHA-256 and AES-GCM come as parameters, and what
-- crypto/rand supplies is an argument of the functions that read it.
use enxame.Base.{
  ℕ, Bool, ◌||◌, not, List, ◌++◌, Option, none, some, ◌==◌, ltb, if◌then◌else◌, length, take, drop,
}
pub mod Laws

-- The methods of crypto/ecdh, crypto/sha256 and crypto/cipher that the code calls; `none` is an error.
pub record Primitives : Type 0 where
  pub public_key : List ℕ → List ℕ
  pub is_public_key : List ℕ → Bool
  pub ecdh : List ℕ → List ℕ → Option (List ℕ)
  pub sha256 : List ℕ → List ℕ
  pub gcm_seal : List ℕ → List ℕ → List ℕ → List ℕ
  pub gcm_open : List ℕ → List ℕ → List ℕ → Option (List ℕ)

pub record KeyPair : Type 0 where
  pub private : List ℕ
  pub public : List ℕ

-- aes.NewCipher accepts keys of these lengths.
abbrev pub is_aes_key : List ℕ → Bool
is_aes_key key = length key == 16 || (length key == 24 || length key == 32)

abbrev pub nonce_size : ℕ
nonce_size = 12

module _ (p : Primitives) where
  -- A key pair of the private key that was drawn.
  unfoldable pub generate_key_exchange_pair : Option (List ℕ) → Option KeyPair
  generate_key_exchange_pair none = none
  generate_key_exchange_pair (some priv) =
      some (record { private = priv; public = p.public_key priv })

  unfoldable pub derive_shared_secret : List ℕ → List ℕ → Option (List ℕ)
  derive_shared_secret priv peer_pub =
      if not (p.is_public_key peer_pub)
      then none
      else elim (p.ecdh priv peer_pub) [ none ↦ none | some secret ↦ some (p.sha256 secret) ]

  -- The nonce in front of the sealed text.
  unfoldable pub encrypt : Option (List ℕ) → List ℕ → List ℕ → Option (List ℕ)
  encrypt random key plaintext =
      if not (is_aes_key key)
      then none
      else elim random [ none ↦ none | some nonce ↦ some (nonce ++ p.gcm_seal key nonce plaintext) ]

  unfoldable pub decrypt : List ℕ → List ℕ → Option (List ℕ)
  decrypt key bytes =
      if not (is_aes_key key)
      then none
      else if ltb (length bytes) nonce_size
      then none
      else p.gcm_open key (take nonce_size bytes) (drop nonce_size bytes)
