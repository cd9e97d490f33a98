-- ===== src/Auth.antt =====
-- The interceptor of unary calls in internal/server/auth_interceptor.go. The validation of JWT comes as
-- a parameter, and so do the primitives of cryptography.
use enxame.Base.{
  ℕ, String, Bool, true, false, not, ◌&&◌, ◌||◌, List, [], ◌∷◌, Option, none, some, if◌then◌else◌,
  any, ◌⊎◌, inl, inr,
}
use enxame.Base.Text.{◌==◌, has_suffix, contains, trim_prefix}
use enxame.Crypto.{Primitives, derive_node_id, verify_signature}
use Prim.Native.String
pub mod Rules
mod Tests

pub record Claims : Type 0 where
  pub user_id : String
  pub role : String
  pub scope : String

-- The headers of a call that the interceptor reads, each with its values.
pub record Metadata : Type 0 where
  pub authorization : List String
  pub x_vault_token : List String

-- The values that the interceptor stores in the context.
pub record Context : Type 0 where
  pub user_id : Option String
  pub role : Option String
  pub vault_scope : Option String

abbrev pub background : Context
background = record { user_id = none; role = none; vault_scope = none }

pub record NodeIdentity : Type 0 where
  pub node_id : String
  pub public_key : List ℕ
  pub signature : List ℕ

-- The request: RegisterNodeRequest with its identity, which may be missing, or another type.
pub data Request : Type 0 where
  register_node : Option NodeIdentity → Request
  other_request : Request

-- The codes of the errors that the interceptor returns.
pub data Status : Type 0 where
  permission_denied unauthenticated invalid_argument internal : Status

abbrev pub guest : Context
guest = record background { role = some "guest" }

module _ (validate_jwt : String → Option Claims) where
  -- The vault token is read only beside a valid token of the user.
  unfoldable pub vault_scope_of : List String → Option String
  vault_scope_of [] = none
  vault_scope_of (token ∷ rest) = elim (validate_jwt token) [
    | none ↦ none
    | some claims ↦ if claims.scope == "super_admin" then some "super_admin" else none
  ]

  unfoldable pub authenticate_user : Option Metadata → Context
  unfolding vault_scope_of
  authenticate_user none = background
  authenticate_user (some md) = elim md.authorization [
    | [] ↦ guest
    | header ∷ rest ↦ elim (validate_jwt (trim_prefix header "Bearer ")) [
      | none ↦ guest
      | some claims ↦ record {
        user_id = some claims.user_id;
        role = some claims.role;
        vault_scope = vault_scope_of md.x_vault_token;
      }
    ]
  ]

abbrev role_or_guest : String → String
role_or_guest r = if r == "" then "guest" else r

-- A missing value is the empty string.
unfoldable pub role_of : Context → String
role_of c = elim c.role [ none ↦ "guest" | some r ↦ role_or_guest r ]

abbrev pub critical_methods : List String
critical_methods = "BanNode" ∷ "UnbanNode" ∷ "SendGlobalAlert" ∷ "UpdateUserRole" ∷ []

unfoldable pub has_vault : Context → Bool
has_vault c = elim c.vault_scope [ none ↦ false | some s ↦ s == "super_admin" ]

-- Rules 2 and 3.
unfoldable pub authorize_admin : Context → String → Option Status
unfolding role_of has_vault
authorize_admin c method =
    if contains method "/AdminService/" || has_suffix method "/CreateChannel"
    then (if not (role_of c == "admin") && not (role_of c == "owner")
        then some permission_denied
        else if any (λ m. has_suffix method (String.◌++◌ "/" m)) critical_methods
            && not (has_vault c)
        then some unauthenticated
        else none)
    else none

-- The refusal, if the call is refused.
unfoldable pub authorize : Context → String → Option Status
unfolding authorize_admin role_of
authorize c method =
    if (role_of c == "guest") && has_suffix method "/SendMessage"
    then some permission_denied
    else if (role_of c == "guest") && has_suffix method "/CreateChannel"
    then some permission_denied
    else authorize_admin c method

abbrev is_nil : List ℕ → Bool
is_nil [] = true
is_nil (x ∷ xs) = false

module _ (p : Primitives) where
  validate_identity : NodeIdentity → Option Status
  validate_identity i =
      if i.node_id == ""
      then some invalid_argument
      else if is_nil i.public_key
      then some invalid_argument
      else if is_nil i.signature
      then some invalid_argument
      else if not (i.node_id == derive_node_id p i.public_key)
      then some invalid_argument
      else elim (verify_signature p i.public_key i.node_id i.signature) [
        | none ↦ none
        | some e ↦ some unauthenticated
      ]

  unfoldable pub validate_register_node : Request → Option Status
  unfolding validate_identity
  validate_register_node other_request = some internal
  validate_register_node (register_node none) = some invalid_argument
  validate_register_node (register_node (some i)) = validate_identity i

  -- The check before authentication.
  unfoldable pub check_identity : String → Request → Option Status
  unfolding validate_register_node
  check_identity method request =
      if has_suffix method "/RegisterNode" then validate_register_node request else none

  -- A refusal, or the context with which the handler is called.
  unfoldable pub unary :
      (String → Option Claims) → Option Metadata → String → Request → Status ⊎ Context
  unfolding check_identity authorize authenticate_user
  unary validate_jwt md method request = elim (check_identity method request) [
    | some refusal ↦ inl refusal
    | none ↦ elim (authorize (authenticate_user validate_jwt md) method) [
      | some refusal ↦ inl refusal
      | none ↦ inr (authenticate_user validate_jwt md)
    ]
  ]

-- The methods of AdminService, by their full names in pkg/pb/v1/admin_grpc.pb.go.
pub data AdminMethod : Type 0 where
  get_network_stats list_nodes list_users update_user_role : AdminMethod
  ban_node unban_node send_global_alert verify_master_key : AdminMethod

unfoldable pub full_method : AdminMethod → String
full_method get_network_stats = "/network.v1.AdminService/GetNetworkStats"
full_method list_nodes = "/network.v1.AdminService/ListNodes"
full_method list_users = "/network.v1.AdminService/ListUsers"
full_method update_user_role = "/network.v1.AdminService/UpdateUserRole"
full_method ban_node = "/network.v1.AdminService/BanNode"
full_method unban_node = "/network.v1.AdminService/UnbanNode"
full_method send_global_alert = "/network.v1.AdminService/SendGlobalAlert"
full_method verify_master_key = "/network.v1.AdminService/VerifyMasterKey"

abbrev pub create_channel_method : String
create_channel_method = "/channel.v1.ChannelService/CreateChannel"

abbrev pub register_node_method : String
register_node_method = "/network.v1.NetworkService/RegisterNode"
