-- ===== src/Channel/Tests.antt =====
-- A channel with its requests, and the theorems at this state.
use enxame.Base.{
  Bool-cases, ℕ, String, ◌≡◌, inl, inr, refl, true, false, List, [], ◌∷◌, ◌++◌, if◌then◌else◌,
}
use enxame.Base.Text.{◌==◌}
use enxame.Base.Dict.{lookup, insert, delete}
use enxame.Base.Word.{digits, format_int}
use enxame.Base.Exec.{ok}
use enxame.Channel.{
  ChannelServer, unknown, known, Services, Signed, new_channel_server, promote_user, demote_user,
  kick_user, create_channel, verify_governance_signature, governance_payload, elapsed, is_expired,
  govern,
}
use enxame.Channel.Governance.{promote_user_lem, kick_user_lem, kick-demote_user}
use enxame.Channel.Lockout.{Call, creates, promotes, IsLocked, step, run, run-IsLocked}

abbrev ten : List ℕ
ten = 0 ∷ 1 ∷ 2 ∷ 3 ∷ 4 ∷ 5 ∷ 6 ∷ 7 ∷ 8 ∷ 9 ∷ []

-- The nodes ana and bia are registered; a signature is good if it is one byte.
abbrev services : Services
services = record {
  get_node = λ n.
      if n == "ana"
      then known (1 ∷ 1 ∷ ten ++ ten ++ ten)
      else if n == "bia"
      then known (2 ∷ 2 ∷ ten ++ ten ++ ten)
      else unknown;
  verify = λ key payload sig. elim sig [ [] ↦ false | x ∷ xs ↦ true ];
}

abbrev request : String → String → Signed
request requester target = record {
  target_node_id = target;
  scope = "CHANNEL";
  channel_id = "#dev";
  requester_id = requester;
  timestamp = 1000;
  signature = 7 ∷ [];
}

abbrev calls : List Call
calls = creates 10 "dev" "ana" "" ∷ promotes 2000 "MODERATOR" (request "ana" "bia") ∷ []

abbrev server : ChannelServer
server = run services (new_channel_server 5) calls

-- What a test of the server computes.
model : Unit {0}
unfolding run step new_channel_server create_channel promote_user demote_user kick_user govern
    verify_governance_signature is_expired elapsed lookup insert delete
model = tt

payload_test :
    governance_payload "bia" "ADMIN" "CHANNEL" "#dev" 18446744073709551615
    ≡ "bia|ADMIN|CHANNEL|#dev|-1"
unfolding governance_payload format_int digits
payload_test = refl

promote_user_lem_example :
    lookup "#Inicio" (promote_user services 2000 "ADMIN" (request "ana" "bia") server).1.channels
    ≡ lookup "#Inicio" server.channels
unfolding model
promote_user_lem_example =
    (promote_user_lem services 2000 "ADMIN" (request "ana" "bia") server refl).4 "#Inicio"

kick_user_lem_example :
    lookup "#Inicio" (kick_user services 2000 (request "bia" "ana") server).1.channels
    ≡ lookup "#Inicio" server.channels
unfolding model
kick_user_lem_example = (kick_user_lem services 2000 (request "bia" "ana") server refl).4 "#Inicio"

kick-demote_user_example : (kick_user services 2000 (request "ana" "bia") server).0 ≡ ok tt
unfolding model
kick-demote_user_example = kick-demote_user services 2000 (request "ana" "bia") server refl

run-IsLocked_example : IsLocked "#dev" (
    run services
      (demote_user services 2000 (request "ana" "ana") server).1
      (promotes 2000 "ADMIN" (request "ana" "ana") ∷ []))
unfolding model
run-IsLocked_example =
    run-IsLocked services "#dev" (demote_user services 2000 (request "ana" "ana") server).1
      (promotes 2000 "ADMIN" (request "ana" "ana") ∷ [])
      (λ n. elim (Bool-cases ("bia" == n)) [ inl e ↦ rw e refl | inr e ↦ rw e refl ])
