-- ===== src/Channel.antt =====
-- The channels of the core server and their governance: internal/server/channel_manual.go. The service
-- that finds a node's key comes as a parameter, as does Ed25519.
use enxame.Base.{
  ℕ, zero, suc, ◌+◌, ◌-◌, ◌/◌, ◌%◌, String, Bool, true, false, not, ◌&&◌, ◌||◌, List, [], ◌∷◌,
  Option, none, some, ◌==◌, leb, ltb, if◌then◌else◌, length, is_some,
}
use enxame.Base.Text.{◌==◌ as text_eq}
use enxame.Base.Dict.{Dict, lookup, insert, delete, has}
use enxame.Base.Word.{word, is_negative, format_int}
use enxame.Base.Exec.{
  Outcome, ok, err, panic, Exec, ◌>>=◌, ◌>>◌, pure, fail, abort, gets, modify, refuse_if,
}
use Prim.Native.String
use Prim.Native.String.{slice}
pub mod Time
pub mod Governance
pub mod Lockout
mod Tests

pub record ChannelData : Type 0 where
  pub id : String
  pub name : String
  pub owner_id : String
  pub members : Dict Bool
  pub roles : Dict String
  pub avatar : String
  pub created_at : ℕ

-- One call of LogGovernanceAction.
pub record GovernanceAction : Type 0 where
  pub requester_id : String
  pub action : String
  pub target_id : String
  pub channel_id : String
  pub signature : List ℕ

pub record ChannelServer : Type 0 where
  pub channels : Dict ChannelData
  pub audit : List GovernanceAction

-- What NodeService.GetNode returns: an error, a nil node without an error, or a node with its key.
pub data Found : Type 0 where
  failed unknown : Found
  known : List ℕ → Found

pub record Services : Type 0 where
  pub get_node : String → Found
  pub verify : List ℕ → String → List ℕ → Bool

-- The answers with Success false, and the error of GetChannelInfo.
pub data Refusal : Type 0 where
  name_and_owner_required channel_exists channel_not_found : Refusal
  requester_not_found invalid_signature signature_expired : Refusal
  scope_unsupported permission_denied : Refusal

abbrev pub Channels : Type 0 → Type 0
Channels A = Exec ChannelServer Refusal A

abbrev initial_channel : ℕ → ChannelData
initial_channel now = record {
  id = "#Inicio";
  name = "Inicio";
  owner_id = "SYSTEM";
  members = [];
  roles = [];
  avatar = "";
  created_at = now;
}

unfoldable pub new_channel_server : ℕ → ChannelServer
new_channel_server now = record { channels = insert "#Inicio" (initial_channel now) []; audit = [] }

abbrev pub slug : String → String
slug name = String.◌++◌ "#" name

abbrev pub created : ℕ → String → String → String → ChannelData
created now name owner avatar = record {
  id = slug name;
  name = name;
  owner_id = owner;
  members = insert owner true [];
  roles = insert owner "ADMIN" [];
  avatar = avatar;
  created_at = now;
}

-- The map is read and then written, without a lock in between in the source; here this is one step.
unfoldable pub create_channel : ℕ → String → String → String → Channels String
create_channel now name owner avatar = do
  refuse_if (text_eq name "" || text_eq owner "") name_and_owner_required
  exists ← gets (λ s. has (slug name) s.channels)
  refuse_if exists channel_exists
  modify
      (λ s. record s { channels = insert (slug name) (created now name owner avatar) s.channels })
  pure (slug name)

unfoldable pub get_channel_info : String → Channels ChannelData
get_channel_info channel_id s = elim (lookup channel_id s.channels) [
  | none ↦ (err channel_not_found, s)
  | some ch ↦ (ok ch, s)
]

unfoldable pub elapsed : ℕ → ℕ → ℕ
elapsed now ts =
    let diff = (now + (word - ts)) % word in if is_negative diff then (word - diff) % word else diff

-- diff > (60 * time.Second).Nanoseconds(), a comparison of signed numbers
unfoldable pub is_expired : ℕ → ℕ → Bool
unfolding elapsed
is_expired now ts = not (is_negative (elapsed now ts)) && ltb 60000000000 (elapsed now ts)

abbrev pub bar : String → String → String
bar a b = String.◌++◌ a (String.◌++◌ "|" b)

unfoldable pub governance_payload : String → String → String → String → ℕ → String
unfolding format_int
governance_payload target role scope channel ts =
    bar target (bar role (bar scope (bar channel (format_int ts))))

-- A request of PromoteUser; DemoteUser and KickUser have the same fields but the role.
pub record Signed : Type 0 where
  pub target_node_id : String
  pub scope : String
  pub channel_id : String
  pub requester_id : String
  pub timestamp : ℕ
  pub signature : List ℕ

-- The role of a node; a missing key is the empty string.
abbrev role_or_empty : Option String → String
role_or_empty none = ""
role_or_empty (some r) = r

abbrev pub role_in : ChannelData → String → String
role_in ch n = role_or_empty (lookup n ch.roles)

abbrev put : String → ChannelData → ChannelServer → ChannelServer
put k ch s = record s { channels = insert k ch s.channels }

abbrev log_action : String → Signed → ChannelServer → ChannelServer
log_action action r s = record s {
  audit =
      record {
        requester_id = r.requester_id;
        action = action;
        target_id = r.target_node_id;
        channel_id = r.channel_id;
        signature = r.signature;
      }
      ∷ s.audit;
}

-- What the three operations do with the channel they found: the roles that may act, and the change.
change_found :
    (String → Bool)
    → (ChannelData → ChannelData)
    → String
    → Signed
    → Option ChannelData
    → Channels Unit
change_found may change action r none = fail channel_not_found
change_found may change action r (some ch) = do
  refuse_if (not (may (role_in ch r.requester_id))) permission_denied
  modify (put r.channel_id (change ch))
  modify (log_action action r)

abbrev pub is_admin : String → Bool
is_admin role = text_eq role "ADMIN"

abbrev pub is_staff : String → Bool
is_staff role = text_eq role "ADMIN" || text_eq role "MODERATOR"

avatar_found : String → String → String → Option ChannelData → Channels Unit
avatar_found channel avatar requester none = fail channel_not_found
avatar_found channel avatar requester (some ch) = do
  refuse_if (not (is_admin (role_in ch requester)) && not (text_eq ch.owner_id requester))
      permission_denied
  modify (put channel (record ch { avatar = avatar }))

module _ (services : Services) where
  -- ed25519.Verify panics on a key that has not 32 bytes.
  check_signature : Found → String → List ℕ → Outcome Refusal Unit
  check_signature failed payload sig = err requester_not_found
  check_signature unknown payload sig = panic
  check_signature (known key) payload sig =
      if not (length key == 32)
      then panic
      else if services.verify key payload sig
      then ok tt
      else err invalid_signature

  unfoldable pub verify_governance_signature : ℕ → String → Signed → Channels Unit
  unfolding check_signature is_expired
  verify_governance_signature now role r = do
    (λ s. (
      check_signature (services.get_node r.requester_id)
          (governance_payload r.target_node_id role r.scope r.channel_id r.timestamp) r.signature,
      s,
    ))
    refuse_if (is_expired now r.timestamp) signature_expired

  unfoldable pub govern :
      (String → Bool) → (ChannelData → ChannelData) → String → String → ℕ → Signed → Channels Unit
  unfolding change_found verify_governance_signature
  govern may change action role now r = do
    verify_governance_signature now role r
    refuse_if (not (text_eq r.scope "CHANNEL")) scope_unsupported
    found ← gets (λ s. lookup r.channel_id s.channels)
    change_found may change action r found

  unfoldable pub promote_user : ℕ → String → Signed → Channels Unit
  promote_user now role r =
      govern is_admin (λ ch. record ch { roles = insert r.target_node_id role ch.roles }) "PROMOTE"
        role now r

  unfoldable pub demote_user : ℕ → Signed → Channels Unit
  demote_user now r =
      govern is_admin (λ ch. record ch { roles = delete r.target_node_id ch.roles }) "DEMOTE" "" now
        r

  unfoldable pub kick_user : ℕ → Signed → Channels Unit
  kick_user now r =
      govern is_staff
        (λ ch. record ch {
          members = delete r.target_node_id ch.members;
          roles = delete r.target_node_id ch.roles;
        })
        "KICK" "" now r

  unfoldable pub update_channel_avatar : String → String → String → ℕ → List ℕ → Channels Unit
  unfolding check_signature avatar_found format_int
  update_channel_avatar channel avatar requester ts sig = do
    (λ s. (
      check_signature (services.get_node requester) (bar channel (bar avatar (format_int ts))) sig,
      s,
    ))
    found ← gets (λ s. lookup channel s.channels)
    avatar_found channel avatar requester found
