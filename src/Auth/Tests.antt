-- ===== src/Auth/Tests.antt =====
-- Calls that the interceptor passes and refuses.
use enxame.Base.{
  ℕ, String, ◌≡◌, refl, true, List, [], ◌∷◌, Option, none, some, arith, eq_iff, inr, ◌++◌,
  if◌then◌else◌,
}
use enxame.Base.Text.{◌==◌}
use enxame.Crypto.{Primitives, derive_node_id}
use enxame.Auth.{
  Claims, Metadata, NodeIdentity, register_node, authenticate_user, authorize, unary, ban_node,
  full_method, background, register_node_method,
}
use enxame.Auth.Rules.{authorize-full_method, unary-register_node}

abbrev bytes : List ℕ
bytes = 0 ∷ 1 ∷ 2 ∷ 3 ∷ 4 ∷ 5 ∷ 6 ∷ 7 ∷ 8 ∷ 9 ∷ 10 ∷ 11 ∷ 12 ∷ 13 ∷ 14 ∷ 255 ∷ []

abbrev key : List ℕ
key = bytes ++ bytes

-- Primitives under which every signature is good.
abbrev primitives : Primitives
primitives = record { sha256 = λ xs. xs; verify = λ k m s. true }

abbrev identity : NodeIdentity
identity = record {
  node_id = "000102030405060708090a0b0c0d0eff";
  public_key = key;
  signature = key ++ key;
}

abbrev validate : String → Option Claims
validate t =
    if t == "user"
    then some (record { user_id = "u1"; role = "admin"; scope = "" })
    else if t == "vault"
    then some (record { user_id = "u1"; role = "admin"; scope = "super_admin" })
    else none

abbrev md : Metadata
md = record { authorization = "Bearer user" ∷ []; x_vault_token = "vault" ∷ [] }

authorize-full_method_example : authorize background (full_method ban_node) ≡ none
authorize-full_method_example = authorize-full_method background ban_node

unary-register_node_example :
    unary primitives validate (some md) register_node_method (register_node (some identity))
    ≡ inr (authenticate_user validate (some md))
unfolding derive_node_id
unary-register_node_example =
    (unary-register_node validate primitives (some md) identity).1
      (λ e. ground (arith, e, eq_iff identity.node_id ""), refl, refl, refl, refl)
