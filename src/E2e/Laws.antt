-- ===== src/E2e/Laws.antt =====
-- What the functions of e2e.go promise together, from what the packages that they call promise.
use enxame.Base.{
  ℕ, ◌≡◌, true, List, ◌++◌, some, arith, length, length-append, take, drop, take-append,
  drop-append, Option-cases, inl, inr,
}
use enxame.E2e.{Primitives, is_aes_key, derive_shared_secret, encrypt, decrypt}

-- AES-GCM opens what it sealed under the same key and nonce; both sides of X25519 compute the same secret
-- for public keys of the curve; a SHA-256 sum has 32 bytes.
pub record IsLawful (p : Primitives) : Type 0 where
  pub open-seal :
      (key nonce plaintext : List ℕ)
      → p.gcm_open key nonce (p.gcm_seal key nonce plaintext) ≡ some plaintext
  pub is_public_key-public_key : (priv : List ℕ) → p.is_public_key (p.public_key priv) ≡ true
  pub ecdh-public_key :
      (a b secret : List ℕ)
      → p.ecdh a (p.public_key b) ≡ some secret
      → p.ecdh b (p.public_key a) ≡ some secret
  pub length-sha256 : (xs : List ℕ) → length (p.sha256 xs) ≡ 32

module _ (p : Primitives) (laws : IsLawful p) where
  pub opened :
      (key nonce plaintext : List ℕ)
      → length nonce ≡ 12
      → is_aes_key key ≡ true
      → decrypt p key (nonce ++ p.gcm_seal key nonce plaintext) ≡ some plaintext
  unfolding decrypt
  opened key nonce plaintext sized good =
      let front : take 12 (nonce ++ p.gcm_seal key nonce plaintext) ≡ nonce =
        rw (← sized) (take-append nonce (p.gcm_seal key nonce plaintext)) in
      let back : drop 12 (nonce ++ p.gcm_seal key nonce plaintext)
          ≡ p.gcm_seal key nonce plaintext =
        rw (← sized) (drop-append nonce (p.gcm_seal key nonce plaintext)) in
      ground (
        arith,
        front,
        back,
        good,
        length-append nonce (p.gcm_seal key nonce plaintext),
        laws.open-seal key nonce plaintext,
      )

  -- Decrypt returns what Encrypt was given, under the same key, whenever Encrypt succeeds.
  pub decrypt-encrypt :
      (nonce key plaintext ciphertext : List ℕ)
      → length nonce ≡ 12
      → encrypt p (some nonce) key plaintext ≡ some ciphertext
      → decrypt p key ciphertext ≡ some plaintext
  unfolding encrypt
  decrypt-encrypt nonce key plaintext ciphertext sized h =
      ground (arith, h, opened key nonce plaintext sized)

  pub encrypt_ok :
      (nonce key plaintext : List ℕ)
      → is_aes_key key ≡ true
      → encrypt p (some nonce) key plaintext ≡ some (nonce ++ p.gcm_seal key nonce plaintext)
  unfolding encrypt
  encrypt_ok nonce key plaintext good = ground (arith, good)

  -- Two sides that exchange their public keys derive the same key, which AES accepts.
  pub derive_shared_secret_agrees :
      (a b key : List ℕ)
      → derive_shared_secret p a (p.public_key b) ≡ some key
      → (derive_shared_secret p b (p.public_key a) ≡ some key) × (is_aes_key key ≡ true)
  unfolding derive_shared_secret
  derive_shared_secret_agrees a b key h = elim (Option-cases (p.ecdh a (p.public_key b))) [
    | inl failed ↦ ground (arith, failed, h, laws.is_public_key-public_key b)
    | inr (secret, agreed) ↦ ground (
      arith,
      agreed,
      h,
      laws.is_public_key-public_key a,
      laws.is_public_key-public_key b,
      laws.ecdh-public_key a b secret agreed,
      laws.length-sha256 secret,
    )
  ]
