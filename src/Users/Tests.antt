-- ===== src/Users/Tests.antt =====
-- Two users, with libraries that sign the tokens of one user, or of the vault.
use enxame.Base.{
  ℕ, String, ◌≡◌, refl, false, ◌&&◌, [], ◌∷◌, none, some, arith, eq_iff, eq_refl, if◌then◌else◌,
}
use enxame.Base.Text.{◌==◌}
use enxame.Base.Exec.{ok}
use enxame.Auth.{background, authenticate_user, authorize}
use enxame.Users.{
  Machine, row_of, create_user, count_in_transaction, insert_in_transaction, get_user_by_email,
}
use enxame.Users.Server.{
  Library, LibraryLaws, Session, RegisterRequest, user_of, register, login, generate_jwt,
  generate_vault_token, verify_master_key,
}
use enxame.Users.Calls.{registers, gets_me, updates_role, run}
use enxame.Users.Owner.{HasFirstOwner, run-HasFirstOwner, interleaved, two_owners}
use enxame.Users.Sessions.{
  bearer_of, login-register, authenticate_user-login, authorize-verify_master_key,
}

-- Tokens are the roles of one user.
abbrev lib : Library
lib = record {
  hash_password = λ salt password. some password;
  check_password_hash = λ password hash. password == hash;
  sign = λ s. if s.claims.user_id == "u1" && s.claims.scope == "" then some s.claims.role else none;
  parse = λ t token. some (record { user_id = "u1"; role = token; scope = "" });
}

lib_laws : LibraryLaws lib
lib_laws = record {
  check-hash = λ salt password hash h. ground (arith, h, eq_refl password);
  parse-sign = λ t s token h early.
      ground (arith, h, eq_iff s.claims.user_id "u1", eq_iff s.claims.scope "");
}

-- Tokens of the vault are the ids of its users.
abbrev vault : Library
vault = record lib {
  sign = λ s.
      if s.claims.role == "admin" && s.claims.scope == "super_admin"
      then some s.claims.user_id
      else none;
  parse = λ t token. some (record { user_id = token; role = "admin"; scope = "super_admin" });
}

vault_laws : LibraryLaws vault
vault_laws = record {
  check-hash = λ salt password hash h. ground (arith, h, eq_refl password);
  parse-sign = λ t s token h early.
      ground (arith, h, eq_iff s.claims.role "admin", eq_iff s.claims.scope "super_admin");
}

abbrev machine : ℕ → String → Machine
machine now id = record {
  now = now;
  new_id = id;
  salt = 0;
  uuid_of = λ text. some text;
  fails = λ st. false;
}

abbrev ana : RegisterRequest
ana = record {
  email = "ana@x";
  password = "secret";
  full_name = "Ana";
  phone = "";
  nickname = "ana";
}

abbrev eva : RegisterRequest
eva = record {
  email = "eva@x";
  password = "hidden";
  full_name = "Eva";
  phone = "";
  nickname = "eva";
}

abbrev ana_session : Session
ana_session = record {
  token = "owner";
  user = record { id = "u1"; email = "ana@x"; full_name = "Ana"; nickname = "ana"; role = "owner" };
}

run-HasFirstOwner_example : HasFirstOwner (
    run lib [] (
      registers (machine 1 "u1") ana
      ∷ gets_me (machine 2 "") background
      ∷ registers (machine 3 "u2") eva
      ∷ []))
run-HasFirstOwner_example =
    run-HasFirstOwner lib
      (registers (machine 1 "u1") ana
        ∷ gets_me (machine 2 "") background
        ∷ registers (machine 3 "u2") eva
        ∷ [])
      (tt, (tt, (tt, tt)))

two_owners_example :
    (interleaved (machine 1 "u1") (machine 2 "u2") (user_of lib ana "a") (user_of lib eva "b") []).1
    ≡ row_of (machine 1 "u1") (user_of lib ana "a") 0
      ∷ row_of (machine 2 "u2") (user_of lib eva "b") 0
      ∷ []
two_owners_example =
    two_owners (machine 1 "u1") (machine 2 "u2") (user_of lib ana "a") (user_of lib eva "b")
      (λ st. refl) (λ st. refl) refl refl

login-register_example :
    (t : Session) × ((login lib (machine 9 "") "ana@x" "secret" (
        run lib
          (register lib (machine 1 "u1") ana []).1
          (registers (machine 3 "u2") eva ∷ updates_role (machine 4 "") "u1" "member" ∷ []))).0
      ≡ ok t)
    × (t.user.id ≡ "u1")
unfolding register create_user count_in_transaction insert_in_transaction generate_jwt
login-register_example =
    login-register lib lib_laws (machine 1 "u1") (machine 9 "") ana []
      (registers (machine 3 "u2") eva ∷ updates_role (machine 4 "") "u1" "member" ∷ []) ana_session
      refl refl (λ role. refl)

authenticate_user-login_example :
    authenticate_user (lib.parse 5) (some (bearer_of lib "owner" ("owner" ∷ [])))
    ≡ record { user_id = some "u1"; role = some "owner"; vault_scope = none }
unfolding register create_user count_in_transaction insert_in_transaction generate_jwt login
    get_user_by_email
authenticate_user-login_example =
    (authenticate_user-login lib lib_laws (machine 2 "") "ana@x" "secret"
      (register lib (machine 1 "u1") ana []).1 ana_session 5 refl (omega arith)).1

authorize-verify_master_key_example :
    authorize
      (authenticate_user
        (vault.parse 5)
        (some (bearer_of vault "admin-session" ("admin-session" ∷ []))))
      "/network.v1.AdminService/BanNode"
    ≡ none
unfolding verify_master_key generate_vault_token
authorize-verify_master_key_example =
    (authorize-verify_master_key vault vault_laws "key" "key" "admin-session"
      "/network.v1.AdminService/BanNode" 2 5 background refl (omega arith)).2
