-- ===== src/Crypto/Tests.antt =====
-- A verifier with one master key.
use enxame.Base.{ℕ, String, ◌≡◌, refl, true, List, [], ◌∷◌, ◌++◌, some}
use enxame.Crypto.{Primitives, derive_node_id}
use enxame.Crypto.Keys.{hex_decode}

abbrev bytes : List ℕ
bytes = 0 ∷ 17 ∷ 34 ∷ 51 ∷ 68 ∷ 85 ∷ 102 ∷ 119 ∷ 136 ∷ 153 ∷ 170 ∷ 187 ∷ 204 ∷ 221 ∷ 238 ∷ 255 ∷ []

abbrev key : List ℕ
key = bytes ++ bytes

abbrev text : String
text = "00112233445566778899aAbBcCdDeEfF00112233445566778899aabbccddeeff"

-- Primitives under which every signature is good.
abbrev primitives : Primitives
primitives = record { sha256 = λ xs. xs; verify = λ k m s. true }

hex_decode_test : hex_decode text ≡ some key
unfolding hex_decode
hex_decode_test = refl

node_id_test : derive_node_id primitives key ≡ "00112233445566778899aabbccddeeff"
unfolding derive_node_id
node_id_test = refl
