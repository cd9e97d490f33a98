-- ===== src/Client/Core.antt =====
-- The calls of client.go to the core server. What the server answers is a function of the request.
use enxame.Base.{ℕ, String, not, ◌||◌, List, [], ◌∷◌, if◌then◌else◌}
use enxame.Base.Text.{◌==◌, has_prefix, trim_prefix}
use enxame.Base.Dict.{insert}
use enxame.Base.Word.{format_int}
use enxame.Base.Exec.{◌>>=◌, ◌>>◌, pure, fail, gets, modify, refuse_if}
use enxame.Channel.{Signed, governance_payload, bar}
use enxame.Crypto.{hex_encode}
use enxame.Storage
use enxame.Storage.{save_channel_key, set_config}
use enxame.Client.{
  EnxameClient, Library, World, Client, invalid_role, call_failed, refused, machine_of, ignoring,
  checking,
}
use enxame.Client.Outbox.{subscribe_to_relay_channel}
use enxame.Client.Hub.{require_officer}
use Prim.Native.String

-- An error of the call, an answer with Success false, or an answer.
pub data Answer (A : Type 0) : Type 0 where
  failed unsuccessful : Answer A
  answered : A → Answer A

abbrev pub expect : {A : Type 0} → Answer A → Client A
expect failed = fail call_failed
expect unsuccessful = fail refused
expect (answered a) = pure a

-- The key of the channel, which crypto/rand draws.
unfoldable pub create_channel :
    Library → World → List ℕ → (String → String → Answer String) → String → Client String
create_channel lib w key call name = do
  node_id ← gets (λ c. c.node_id)
  channel ← expect (call (trim_prefix name "#") node_id)
  ignoring (save_channel_key (machine_of w) channel (hex_encode key))
  modify λ c. record c { channel_keys = insert channel key c.channel_keys }
  subscribe_to_relay_channel lib w channel
  pure channel

abbrev full_name : String → String
full_name channel = if has_prefix channel "#" then channel else String.◌++◌ "#" channel

unfoldable pub join_channel : Library → World → String → Client Unit
join_channel lib w channel = do
  modify λ c. record c { current_channel = full_name channel }
  subscribe_to_relay_channel lib w (full_name channel)

module _ (lib : Library) where
  -- The request of a governance operation, signed with the client's key.
  abbrev pub signed : World → String → String → String → EnxameClient → Signed
  signed w target role channel c = record {
    target_node_id = target;
    scope = "CHANNEL";
    channel_id = channel;
    requester_id = c.node_id;
    timestamp = w.now;
    signature =
        lib.sign c.private_key
          (lib.to_bytes (governance_payload target role "CHANNEL" channel w.now));
  }

  -- PromoteUser; the server is told the role beside the rest.
  unfoldable pub promote_user :
      World → (String → Signed → Answer Unit) → String → String → String → Client Unit
  promote_user w call target role channel = do
    refuse_if (not (role == "ADMIN" || role == "MODERATOR")) invalid_role
    request ← gets (signed w target role channel)
    expect (call role request)

  unfoldable pub demote_user : World → (Signed → Answer Unit) → String → String → Client Unit
  demote_user w call target channel = do
    request ← gets (signed w target "" channel)
    expect (call request)

  unfoldable pub kick_user : World → (Signed → Answer Unit) → String → String → Client Unit
  kick_user w call target channel = do
    request ← gets (signed w target "" channel)
    expect (call request)

  unfoldable pub update_channel_avatar :
      World → (String → String → String → ℕ → List ℕ → Answer Unit) → String → String → Client Unit
  unfolding require_officer format_int
  update_channel_avatar w call channel avatar = do
    require_officer w channel
    answer ← gets λ c.
        call channel avatar c.node_id w.now
          (lib.sign c.private_key (lib.to_bytes (bar channel (bar avatar (format_int w.now)))))
    expect answer
    checking (Storage.update_channel_avatar (machine_of w) channel avatar)

-- Register and Login: the token of the answer is kept, also in the database.
unfoldable pub keep_token : World → Answer String → Client String
keep_token w answer = do
  token ← expect answer
  modify λ c. record c { auth_token = token }
  ignoring (set_config (machine_of w) "auth_token" token)
  pure token

unfoldable pub logout : World → Client Unit
logout w = do
  modify λ c. record c { auth_token = "" }
  ignoring (set_config (machine_of w) "auth_token" "")

-- VerifyMasterKey, and the end of the thirty minutes after it.
unfoldable pub verify_master_key : Answer String → Client String
verify_master_key answer = do
  token ← expect answer
  modify λ c. record c { vault_token = token }
  pure token

unfoldable pub clear_vault_token : Client Unit
clear_vault_token = modify λ c. record c { vault_token = "" }

-- withAuth: the headers of a call.
abbrev pub headers : EnxameClient → List (String × String)
headers c =
    let token : String × String = ("authorization", String.◌++◌ "Bearer " c.auth_token) in
    if c.vault_token == "" then token ∷ [] else token ∷ ("x-vault-token", c.vault_token) ∷ []
