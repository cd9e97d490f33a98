-- ===== src/Crypto/Keys.antt =====
-- The master keys of a Verifier: NewVerifier in internal/crypto/signature.go.
use enxame.Base.{
  ℕ, ◌+◌, ◌-◌, ◌*◌, String, ◌≡◌, true, ◌⊎◌, inl, inr, List, [], ◌∷◌, Option, none, some, arith,
  ◌==◌, leb, if◌then◌else◌, length, Option-cases, Bool-cases, ◌&&◌, Bool,
}
use enxame.Base.Text.{◌==◌ as text_eq}
use enxame.Base.Dict.{Dict, lookup, insert, lookup-insert}
use enxame.Crypto.{Primitives, derive_node_id, verify_master_signature}
use enxame.Crypto.Laws.{verify_master_signature_lem}
use Prim.Native.Char.{code}

-- hex.DecodeString
abbrev in_range : ℕ → ℕ → ℕ → Bool
in_range low high c = leb low c && leb c high

hex_value : ℕ → Option ℕ
hex_value c =
    if in_range 48 57 c
    then some (c - 48)
    else if in_range 97 102 c
    then some (c - 87)
    else if in_range 65 70 c
    then some (c - 55)
    else none

abbrev pair : Option ℕ → Option ℕ → Option (List ℕ) → Option (List ℕ)
pair (some a) (some b) (some rest) = some ((16 * a + b) ∷ rest)
pair (some a) (some b) none = none
pair (some a) none rest = none
pair none b rest = none

unfoldable pub hex_decode : String → Option (List ℕ)
unfolding hex_value
hex_decode String.[] = some []
hex_decode (String.◌∷◌ c String.[]) = none
hex_decode (String.◌∷◌ c (String.◌∷◌ d s)) =
    pair (hex_value (code c)) (hex_value (code d)) (hex_decode s)

-- The bytes that hex.DecodeString returns beside an error, those before the first that is not hexadecimal,
-- or all if there is no error.
hex_pair : Option ℕ → Option ℕ → List ℕ → List ℕ
hex_pair (some a) (some b) rest = (16 * a + b) ∷ rest
hex_pair (some a) none rest = []
hex_pair none b rest = []

unfoldable pub hex_bytes : String → List ℕ
unfolding hex_value hex_pair
hex_bytes String.[] = []
hex_bytes (String.◌∷◌ c String.[]) = []
hex_bytes (String.◌∷◌ c (String.◌∷◌ d s)) =
    hex_pair (hex_value (code c)) (hex_value (code d)) (hex_bytes s)

-- One of the texts stands for the key.
abbrev pub IsListed : List ℕ → List String → Type 0
IsListed key [] = ⊥
IsListed key (text ∷ texts) = (hex_decode text ≡ some key) ⊎ IsListed key texts

module _ (p : Primitives) where
  abbrev put_key : List ℕ → Dict (List ℕ) → Option (Dict (List ℕ))
  put_key key keys =
      if length key == 32 then some (insert (derive_node_id p key) key keys) else none

  -- One entry of the list, an empty one being skipped; `none` is an error.
  unfoldable pub add_key : String → Dict (List ℕ) → Option (Dict (List ℕ))
  unfolding hex_decode
  add_key text keys =
      if text_eq text ""
      then some keys
      else elim (hex_decode text) [ none ↦ none | some key ↦ put_key key keys ]

  unfoldable pub add_keys : List String → Dict (List ℕ) → Option (Dict (List ℕ))
  add_keys [] keys = some keys
  add_keys (text ∷ texts) keys = elim (add_key text keys) [
    | none ↦ none
    | some more ↦ add_keys texts more
  ]

  unfoldable pub new_verifier : List String → Option (Dict (List ℕ))
  new_verifier texts = add_keys texts []

  abbrev Keeps : List String → Dict (List ℕ) → Dict (List ℕ) → Type 0
  Keeps texts old new =
      (id : String) (key : List ℕ)
      → lookup id new ≡ some key
      → (lookup id old ≡ some key) ⊎ ((length key ≡ 32) × IsListed key texts)

  add_key-Keeps :
      (text : String) (texts : List String) (keys more : Dict (List ℕ))
      → add_key text keys ≡ some more
      → Keeps (text ∷ texts) keys more
  unfolding add_key
  add_key-Keeps text texts keys more h id key e = elim (Bool-cases (text_eq text "")) [
    | inl empty ↦ inl (ground (arith, empty, h, e))
    | inr full ↦ elim (Option-cases (hex_decode text)) [
      | inl bad ↦ inl (ground (arith, full, bad, h, e))
      | inr (new, good) ↦
          let after = lookup-insert (derive_node_id p new) id new keys in
          elim (Bool-cases (text_eq (derive_node_id p new) id)) [
            | inl same ↦ inr (
              ground (arith, full, good, h, e, same, after),
              inl (ground (arith, full, good, h, e, same, after)),
            )
            | inr other ↦ inl (ground (arith, full, good, h, e, other, after))
          ]
    ]
  ]

  add_keys-Keeps :
      (texts : List String) (keys new : Dict (List ℕ))
      → add_keys texts keys ≡ some new
      → Keeps texts keys new
  unfolding add_keys
  add_keys-Keeps [] keys new h id key e = inl (ground (arith, h, e))
  add_keys-Keeps (text ∷ texts) keys new h id key e = elim (Option-cases (add_key text keys)) [
    | inl bad ↦ inl (ground (arith, bad, h))
    | inr (more, good) ↦ elim (add_keys-Keeps texts more new (ground (arith, good, h)) id key e) [
      | inl before ↦ elim (add_key-Keeps text texts keys more good id key before) [
        | inl old ↦ inl old
        | inr added ↦ inr added
      ]
      | inr (sized, listed) ↦ inr (sized, inr listed)
    ]
  ]

  new_verifier-Keeps :
      (texts : List String) (keys : Dict (List ℕ))
      → new_verifier texts ≡ some keys
      → (id : String) (key : List ℕ) → lookup id keys ≡ some key
      → (length key ≡ 32) × IsListed key texts
  unfolding new_verifier lookup
  new_verifier-Keeps texts keys h id key e = elim (add_keys-Keeps texts [] keys h id key e) [
    | inl old ↦ ground (arith, old)
    | inr listed ↦ listed
  ]

  -- A verifier that was made from a list of texts accepts a master signature only for a key that one of
  -- the texts encodes, and only if Ed25519 accepts the signature of 64 bytes on the message.
  pub verify_master_signature-new_verifier :
      (texts : List String) (keys : Dict (List ℕ)) (public_key : List ℕ) (message : String)
      (signature : List ℕ)
      → new_verifier texts ≡ some keys
      → verify_master_signature p keys public_key message signature ≡ none
      → IsListed public_key texts
        × (length signature ≡ 64)
        × (p.verify public_key message signature ≡ true)
  verify_master_signature-new_verifier texts keys public_key message signature h k =
      let accepted =
        verify_master_signature_lem p keys public_key message signature
          (λ id key e. (new_verifier-Keeps texts keys h id key e).0) k in
      (
        (new_verifier-Keeps texts keys h (derive_node_id p public_key) public_key accepted.0).1,
        accepted.1,
        accepted.2,
      )
