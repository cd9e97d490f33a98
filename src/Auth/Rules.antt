-- ===== src/Auth/Rules.antt =====
-- What the interceptor lets pass.
use enxame.Base.{
  String, ◌≡◌, Bool, true, false, ◌&&◌, ◌↔◌, ◌⊎◌, inl, inr, [], ◌∷◌, Option, none, some, arith,
  eq_iff, length, is_some, ◌≢◌, if◌then◌else◌, Bool-cases,
}
use enxame.Base.Text.{◌==◌, has_suffix, contains, trim_prefix}
use enxame.Crypto.{Primitives, derive_node_id, verify_signature}
use enxame.Auth.{
  Claims, Metadata, Context, NodeIdentity, register_node, vault_scope_of, authenticate_user,
  role_of, has_vault, authorize, authorize_admin, validate_register_node, check_identity, unary,
  AdminMethod, full_method, get_network_stats, list_nodes, list_users, update_user_role, ban_node,
  unban_node, send_global_alert, verify_master_key, create_channel_method, register_node_method,
}

-- Every method of AdminService is open to every caller, the critical ones and guests included.
pub authorize-full_method : (c : Context) (a : AdminMethod) → authorize c (full_method a) ≡ none
unfolding authorize authorize_admin full_method contains has_suffix
authorize-full_method c get_network_stats = ground arith
authorize-full_method c list_nodes = ground arith
authorize-full_method c list_users = ground arith
authorize-full_method c update_user_role = ground arith
authorize-full_method c ban_node = ground arith
authorize-full_method c unban_node = ground arith
authorize-full_method c send_global_alert = ground arith
authorize-full_method c verify_master_key = ground arith

-- The rules pass a call of CreateChannel exactly if the caller's role is admin or owner.
pub authorize-create_channel :
    (c : Context)
    → (authorize c create_channel_method ≡ none) ↔ ((role_of c ≡ "admin") ⊎ (role_of c ≡ "owner"))
unfolding authorize authorize_admin contains has_suffix
authorize-create_channel c = (
  λ h. by_role h,
  λ h. elim h [
    | inl e ↦
        ground
          (arith, e, eq_iff (role_of c) "admin", eq_iff (role_of c) "guest", eq_iff "admin" "guest")
    | inr e ↦
        ground
          (arith, e, eq_iff (role_of c) "owner", eq_iff (role_of c) "guest", eq_iff "owner" "guest")
  ],
)
  where
    by_role :
        authorize c create_channel_method ≡ none → (role_of c ≡ "admin") ⊎ (role_of c ≡ "owner")
    by_role h = elim (Bool-cases (role_of c == "admin")) [
      | inl yes' ↦ inl (ground (arith, yes', eq_iff (role_of c) "admin"))
      | inr no' ↦ inr (ground (arith, no', eq_iff (role_of c) "owner"))
    ]

module _ (validate_jwt : String → Option Claims) where
  -- The claims of the user's token, and of the vault token.
  abbrev pub user_claims : Metadata → Option Claims
  user_claims md = elim md.authorization [
    | [] ↦ none
    | h ∷ rest ↦ validate_jwt (trim_prefix h "Bearer ")
  ]

  abbrev pub vault_claims : Metadata → Option Claims
  vault_claims md = elim md.x_vault_token [ [] ↦ none | t ∷ rest ↦ validate_jwt t ]

  abbrev pub has_scope : Option Claims → Bool
  has_scope none = false
  has_scope (some c) = c.scope == "super_admin"

  -- The role that a valid token claims; without one, and with an empty one, that of a guest.
  abbrev pub claimed_role : Option Claims → String
  claimed_role none = "guest"
  claimed_role (some c) = if c.role == "" then "guest" else c.role

  -- The vault is open for a call exactly if the call has a valid token of its user and a valid vault
  -- token of the scope super_admin; the role of the call is the one that its user's token claims, and a
  -- guest's without a valid token.
  pub authenticate_user_lem :
      (md : Metadata)
      → (has_vault (authenticate_user validate_jwt (some md))
          ≡ (is_some (user_claims md) && has_scope (vault_claims md)))
        × (role_of (authenticate_user validate_jwt (some md)) ≡ claimed_role (user_claims md))
  unfolding has_vault authenticate_user vault_scope_of role_of
  authenticate_user_lem md = (ground arith, ground arith)

  module _ (p : Primitives) (md : Option Metadata) (i : NodeIdentity) where
    -- RegisterNode is reached exactly if the node's id is not empty and derived from its public key, the
    -- key has 32 and the signature 64 bytes, and Ed25519 accepts the signature of the id; the handler
    -- then has the caller's context.
    pub unary-register_node :
        (unary p validate_jwt md register_node_method (register_node (some i))
          ≡ inr (authenticate_user validate_jwt md))
        ↔ ((i.node_id ≢ "")
            × (i.node_id ≡ derive_node_id p i.public_key)
            × (length i.public_key ≡ 32)
            × (length i.signature ≡ 64)
            × (p.verify i.public_key i.node_id i.signature ≡ true))
    unfolding unary check_identity validate_register_node authorize authorize_admin has_suffix
        contains verify_signature
    unary-register_node = (
      λ h. ground (arith, h, eq_iff i.node_id "", eq_iff i.node_id (derive_node_id p i.public_key)),
      λ h. ground (arith, h, eq_iff i.node_id "", eq_iff i.node_id (derive_node_id p i.public_key)),
    )
