-- ===== src/Users/Server.antt =====
-- AuthServer of internal/server/auth_manual.go, the methods of AdminServer in
-- internal/server/admin_server.go on users and the vault, and the tokens of internal/crypto/jwt.go.
use enxame.Base.{
  ℕ, ◌+◌, ◌*◌, ◌/◌, ◌<◌, ◌≡◌, String, Bool, true, false, not, ◌||◌, Option, none, some,
  if◌then◌else◌,
}
use enxame.Base.Text.{◌==◌}
use enxame.Base.Exec.{Outcome, ok, err, ◌>>=◌, ◌>>◌, pure, fail, refuse_if}
use enxame.Auth.{Claims, Context}
use enxame.Users.{
  User, Users, UserError, missing_field, hash_failed, token_failed, create_failed,
  invalid_credentials, not_authenticated, user_not_found, Machine, Repository, create_user,
  get_user_by_email, get_user_by_id, update_user_role,
}

pub record Signed : Type 0 where
  pub claims : Claims
  pub expires_at : ℕ
  pub issued_at : ℕ

-- bcrypt and the JWT library with the secret of the program. A hash depends on random bytes; the
-- dates of a token are whole seconds; a token is read at a time.
pub record Library : Type 0 where
  pub hash_password : ℕ → String → Option String
  pub check_password_hash : String → String → Bool
  pub sign : Signed → Option String
  pub parse : ℕ → String → Option Claims

-- The documented behaviour: a password agrees with its own hash, and a token that has not expired is
-- read as it was signed.
pub record LibraryLaws (lib : Library) : Type 0 where
  pub check-hash :
      (salt : ℕ) (password hash : String)
      → lib.hash_password salt password ≡ some hash
      → lib.check_password_hash password hash ≡ true
  pub parse-sign :
      (t : ℕ) (s : Signed) (token : String)
      → lib.sign s ≡ some token
      → t < s.expires_at * 1000000000
      → lib.parse t token ≡ some s.claims

pub record RegisterRequest : Type 0 where
  pub email : String
  pub password : String
  pub full_name : String
  pub phone : String
  pub nickname : String

pub record PublicUser : Type 0 where
  pub id : String
  pub email : String
  pub full_name : String
  pub nickname : String
  pub role : String

pub record Session : Type 0 where
  pub token : String
  pub user : PublicUser

abbrev pub public_user : User → PublicUser
public_user u = record {
  id = u.id;
  email = u.email;
  full_name = u.full_name;
  nickname = u.nickname;
  role = u.role;
}

-- 24 hours and 30 minutes, in nanoseconds.
abbrev pub day : ℕ
day = 86400000000000

abbrev pub half_hour : ℕ
half_hour = 1800000000000

abbrev pub seconds : ℕ → ℕ
seconds t = t / 1000000000

abbrev or_create_failed : {A : Type 0} → Outcome UserError A → Outcome UserError A
or_create_failed (err e) = err create_failed
or_create_failed o = o

module _ (lib : Library) where
  abbrev pub user_claims : ℕ → String → String → Signed
  user_claims now user_id role = record {
    claims = record { user_id = user_id; role = role; scope = "" };
    expires_at = seconds (now + day);
    issued_at = seconds now;
  }

  abbrev pub vault_claims : ℕ → String → Signed
  vault_claims now user_id = record {
    claims = record { user_id = user_id; role = "admin"; scope = "super_admin" };
    expires_at = seconds (now + half_hour);
    issued_at = seconds now;
  }

  unfoldable pub generate_jwt : ℕ → String → String → Option String
  generate_jwt now user_id role = lib.sign (user_claims now user_id role)

  unfoldable pub generate_vault_token : ℕ → String → Option String
  generate_vault_token now user_id = lib.sign (vault_claims now user_id)

  abbrev or_fail : {A : Type 0} → UserError → Option A → Repository A
  or_fail e none = fail e
  or_fail e (some a) = pure a

  abbrev pub user_of : RegisterRequest → String → User
  user_of req hash = record {
    id = "";
    email = req.email;
    password_hash = hash;
    full_name = req.full_name;
    phone = req.phone;
    nickname = req.nickname;
    role = "";
    created_at = 0;
  }

  abbrev session_of : Machine → User → Repository Session
  session_of machine u = do
    token ← or_fail token_failed (generate_jwt machine.now u.id u.role)
    pure (record { token = token; user = public_user u })

  abbrev created : Machine → User → Repository User
  created machine u users =
      (or_create_failed (create_user machine u users).0, (create_user machine u users).1)

  abbrev pub is_incomplete : RegisterRequest → Bool
  is_incomplete req = (req.email == "" || req.password == "") || req.nickname == ""

  unfoldable pub register : Machine → RegisterRequest → Repository Session
  register machine req = do
    refuse_if (is_incomplete req) missing_field
    hash ← or_fail hash_failed (lib.hash_password machine.salt req.password)
    user ← created machine (user_of req hash)
    session_of machine user

  abbrev check_password : String → User → Repository Unit
  check_password password u =
      refuse_if (not (lib.check_password_hash password u.password_hash)) invalid_credentials

  unfoldable pub login : Machine → String → String → Repository Session
  login machine email password = do
    found_user ← get_user_by_email machine email
    user ← or_fail invalid_credentials found_user
    check_password password user
    session_of machine user

  unfoldable pub get_me : Machine → Context → Repository PublicUser
  get_me machine context = do
    user_id ← or_fail not_authenticated context.user_id
    found_user ← get_user_by_id machine user_id
    user ← or_fail user_not_found found_user
    pure (public_user user)

  -- UpdateUserRole answers with a flag in place of an error.
  abbrev succeeded : {A : Type 0} → Outcome UserError A → Bool
  succeeded (ok a) = true
  succeeded _ = false

  unfoldable pub admin_update_user_role : Machine → String → String → Users → Bool × Users
  admin_update_user_role machine id role users = (
    succeeded (update_user_role machine id role users).0,
    (update_user_role machine id role users).1,
  )

  abbrev pub admin_session : Option String → String
  admin_session none = "admin-session"
  admin_session (some id) = if id == "" then "admin-session" else id

  -- VerifyMasterKey: the vault token, none where the call is refused or the library fails.
  unfoldable pub verify_master_key : String → ℕ → Context → String → Option String
  verify_master_key master_key now context key =
      if master_key == ""
      then none
      else if not (key == master_key)
      then none
      else generate_vault_token now (admin_session context.user_id)
