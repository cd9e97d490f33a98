-- ===== src/Crypto.antt =====
-- Signatures and node ids: internal/crypto/signature.go. SHA-256 and Ed25519 come as parameters. A
-- message is a text, as its bytes are.
use enxame.Base.{
  ℕ, zero, suc, ◌/◌, ◌%◌, ◌+◌, String, Bool, true, false, not, List, [], ◌∷◌, Option, none, some,
  ◌==◌, if◌then◌else◌, length, take,
}
use enxame.Base.Text.{◌==◌ as text_eq}
use enxame.Base.Dict.{Dict, lookup}
use Prim.Native.String
use Prim.Native.String.{slice}
pub mod Laws
pub mod Keys
mod Tests

pub record Primitives : Type 0 where
  pub sha256 : List ℕ → List ℕ
  pub verify : List ℕ → String → List ℕ → Bool

abbrev pub public_key_size : ℕ
public_key_size = 32

abbrev pub signature_size : ℕ
signature_size = 64

pub data CryptoError : Type 0 where
  invalid_public_key invalid_signature signature_invalid not_master_key id_mismatch : CryptoError

-- hex.EncodeToString
abbrev hex_digit : ℕ → String
hex_digit k = slice "0123456789abcdef" k (k + 1)

pub hex_encode : List ℕ → String
hex_encode [] = ""
hex_encode (b ∷ bs) =
    String.◌++◌ (hex_digit (b / 16)) (String.◌++◌ (hex_digit (b % 16)) (hex_encode bs))

-- masterKey[i] != publicKey[i] for no i
abbrev pub same_bytes : List ℕ → List ℕ → Bool
same_bytes [] [] = true
same_bytes [] (y ∷ ys) = true
same_bytes (x ∷ xs) [] = false
same_bytes (x ∷ xs) (y ∷ ys) = if x == y then same_bytes xs ys else false

module _ (p : Primitives) where
  unfoldable pub derive_node_id : List ℕ → String
  unfolding hex_encode
  derive_node_id public_key = hex_encode (take 16 (p.sha256 public_key))

  -- The error, if there is one.
  unfoldable pub verify_signature : List ℕ → String → List ℕ → Option CryptoError
  verify_signature public_key message signature =
      if not (length public_key == public_key_size)
      then some invalid_public_key
      else if not (length signature == signature_size)
      then some invalid_signature
      else if not (p.verify public_key message signature)
      then some signature_invalid
      else none

  unfoldable pub verify_node_identity : String → List ℕ → List ℕ → Option CryptoError
  unfolding derive_node_id verify_signature
  verify_node_identity node_id public_key signature =
      if not (text_eq node_id (derive_node_id public_key))
      then some id_mismatch
      else verify_signature public_key node_id signature

  verify_master_found : Option (List ℕ) → List ℕ → String → List ℕ → Option CryptoError
  verify_master_found none public_key message signature = some not_master_key
  verify_master_found (some master_key) public_key message signature =
      if same_bytes master_key public_key
      then verify_signature public_key message signature
      else some not_master_key

  -- The keys of a Verifier, by the id that is derived from each.
  unfoldable pub verify_master_signature :
      Dict (List ℕ) → List ℕ → String → List ℕ → Option CryptoError
  unfolding verify_master_found
  verify_master_signature master_keys public_key message signature =
      if not (length public_key == public_key_size)
      then some invalid_public_key
      else verify_master_found (lookup (derive_node_id public_key) master_keys) public_key message
          signature

  unfoldable pub is_master_key : Dict (List ℕ) → List ℕ → Bool
  is_master_key master_keys public_key =
      if not (length public_key == public_key_size)
      then false
      else elim (lookup (derive_node_id public_key) master_keys) [ none ↦ false | some k ↦ true ]
