-- ===== src/Users/Sessions.antt =====
-- From a registration to a login, and from a login to the calls that its token opens.
use enxame.Users.Accounts.{
  HasAccount, select-append_new, set_role-HasAccount, append-HasAccount, trim_prefix-bearer,
}
use enxame.Base.{
  ℕ, ◌+◌, ◌*◌, ◌<◌, String, ◌≡◌, ◌≢◌, refl, sym, ◌∙◌, subst, true, false, List, [], ◌∷◌, ◌++◌, none,
  some, arith, eq_iff, eq_refl, Bool-cases, Option-cases, inl, inr, ◌⊎◌, length, any, is_some, not,
  ◌||◌,
}
use enxame.Base.Text.{◌==◌}
use enxame.Base.Exec.{ok}
use enxame.Auth.{
  Context, Metadata, authenticate_user, vault_scope_of, authorize, authorize_admin, role_of,
  has_vault,
}
use enxame.Users.{
  Users, Machine, select_by_email, create_user, count_in_transaction, insert_in_transaction,
  is_admitted, row_of, select, has_email, has_id, set_role, update_user_role, get_user_by_email,
  update_role,
}
use enxame.Users.Server.{
  Library, LibraryLaws, Session, RegisterRequest, user_of, register, login, admin_update_user_role,
  verify_master_key, generate_jwt, generate_vault_token, user_claims, vault_claims, seconds, day,
  half_hour, public_user, admin_session,
}
use enxame.Users.Calls.{
  Call, registers, logs_in, gets_me, updates_role, step, run, register_state, login_state,
  get_me_state, create_user_cases,
}
use enxame.Nodes.Database.{fits}
use Prim.Native.String

module _ (lib : Library) where
  update_user_role_cases :
      (machine : Machine) (id role : String) (us : Users)
      → ((admin_update_user_role lib machine id role us).1 ≡ us)
        ⊎ ((key : String) × ((admin_update_user_role lib machine id role us).1
              ≡ set_role key role us))
  unfolding admin_update_user_role update_user_role
  update_user_role_cases machine id role us = elim (Option-cases (machine.uuid_of id)) [
    | inl bad ↦ inl (ground (arith, bad))
    | inr (key, good) ↦
        elim (Bool-cases (
          machine.fails update_role
          || not (not (is_some (select (has_id key) us)) || fits 16 role))) [
            | inl refused ↦ inl (ground (arith, good, refused))
            | inr done ↦ inr (key, ground (arith, good, done))
          ]
  ]

  step-HasAccount :
      (email id hash : String) (us : Users) (c : Call lib)
      → HasAccount email id hash us
      → HasAccount email id hash (step lib us c)
  unfolding step
  step-HasAccount email id hash us (registers machine req) h =
      elim (register_state lib machine req us) [
        | inl same ↦ subst (HasAccount email id hash) (sym same) h
        | inr (fresh, made) ↦ elim (create_user_cases machine (user_of lib req fresh) us) [
          | inl same ↦ subst (HasAccount email id hash) (sym (made ∙ same)) h
          | inr added ↦
              subst (HasAccount email id hash) (sym (made ∙ added))
                (append-HasAccount email id hash us _ h)
        ]
      ]
  step-HasAccount email id hash us (logs_in machine mail password) h =
      subst (HasAccount email id hash) (sym (login_state lib machine mail password us)) h
  step-HasAccount email id hash us (gets_me machine context) h =
      subst (HasAccount email id hash) (sym (get_me_state lib machine context us)) h
  step-HasAccount email id hash us (updates_role machine target role) h =
      elim (update_user_role_cases machine target role us) [
        | inl same ↦ subst (HasAccount email id hash) (sym same) h
        | inr (key, set) ↦
            subst (HasAccount email id hash) (sym set)
              (set_role-HasAccount email id hash key role us h)
      ]

  run-HasAccount :
      (email id hash : String) (us : Users) (cs : List (Call lib))
      → HasAccount email id hash us
      → HasAccount email id hash (run lib us cs)
  unfolding run
  run-HasAccount email id hash us [] h = h
  run-HasAccount email id hash us (c ∷ cs) h =
      run-HasAccount email id hash (step lib us c) cs (step-HasAccount email id hash us c h)

  -- A registration that succeeds adds a row that the columns admit.
  registered_row :
      (machine : Machine) (req : RegisterRequest) (us : Users) (s : Session) (hash : String)
      → lib.hash_password machine.salt req.password ≡ some hash
      → (register lib machine req us).0 ≡ ok s
      → let row = row_of machine (user_of lib req hash) (length us) in
        ((register lib machine req us).1 ≡ us ++ row ∷ [])
        × (is_admitted row us ≡ true)
        × (machine.new_id ≡ s.user.id)
  unfolding register create_user count_in_transaction insert_in_transaction
  registered_row machine req us s hash good done =
      (ground (arith, good, done), ground (arith, good, done), ground (arith, good, done))

  register_unhashed :
      (machine : Machine) (req : RegisterRequest) (us : Users) (s : Session)
      → lib.hash_password machine.salt req.password ≡ none
      → (register lib machine req us).0 ≢ ok s
  unfolding register
  register_unhashed machine req us s bad = ground (arith, bad)

  register_made :
      (machine : Machine) (req : RegisterRequest) (us : Users) (s : Session)
      → (register lib machine req us).0 ≡ ok s
      → (hash : String) × (lib.hash_password machine.salt req.password ≡ some hash)
        × HasAccount req.email s.user.id hash (register lib machine req us).1
  register_made machine req us s done =
      elim (Option-cases (lib.hash_password machine.salt req.password)) [
        | inl bad ↦ absurd (register_unhashed machine req us s bad done)
        | inr (hash, good) ↦
            let added = registered_row machine req us s hash good done in
            let row = row_of machine (user_of lib req hash) (length us) in
            let fresh : any (has_email req.email) us ≡ false = ground (arith, added.1) in
            (
              hash,
              good,
              (
                row,
                subst (λ t. select (has_email req.email) t ≡ some row) (sym added.0)
                    (select-append_new (has_email req.email) us row fresh (eq_refl req.email)),
                added.2,
                refl,
              ),
            )
      ]

  -- Who registered can log in with the same email and password, after any requests, and is the same
  -- user then. Hashing and signing are assumed to behave as documented, and the login's own statement
  -- and signature not to fail.
  pub login-register :
      (laws : LibraryLaws lib) (machine later : Machine) (req : RegisterRequest) (us : Users)
      (cs : List (Call lib)) (s : Session)
      → (register lib machine req us).0 ≡ ok s
      → later.fails select_by_email ≡ false
      → ((role : String) → is_some (lib.sign (user_claims lib later.now s.user.id role)) ≡ true)
      → (t : Session) × ((login lib later req.email req.password
            (run lib (register lib machine req us).1 cs)).0
          ≡ ok t)
        × (t.user.id ≡ s.user.id)
  unfolding login get_user_by_email generate_jwt
  login-register laws machine later req us cs s done works signs =
      let made = register_made machine req us s done in
      let account = run-HasAccount req.email s.user.id made.0 _ cs made.2 in
      let u = account.0 in
      elim (Option-cases (generate_jwt lib later.now u.id u.role)) [
        | inl bad ↦ ground (arith, bad, signs u.role, account.2)
        | inr (token, good) ↦ (
          record { token = token; user = public_user u },
          ground (
            arith,
            good,
            works,
            account.1,
            account.3,
            laws.check-hash machine.salt req.password made.0 made.1,
          ),
          account.2,
        )
      ]

  abbrev pub bearer_of : String → List String → Metadata
  bearer_of token vault = record {
    authorization = String.◌++◌ "Bearer " token ∷ [];
    x_vault_token = vault;
  }

  login_signed :
      (machine : Machine) (email password : String) (us : Users) (s : Session)
      → (login lib machine email password us).0 ≡ ok s
      → lib.sign (user_claims lib machine.now s.user.id s.user.role) ≡ some s.token
  unfolding login generate_jwt get_user_by_email
  login_signed machine email password us s done =
      elim (Option-cases (select (has_email email) us)) [
        | inl absent ↦ ground (arith, absent, done)
        | inr (u, at) ↦ elim (Option-cases (lib.sign (user_claims lib machine.now u.id u.role))) [
          | inl bad ↦ ground (arith, at, bad, done)
          | inr (token, good) ↦
              let same : record { token = token; user = public_user u } ≡ s =
                ground (arith, at, good, done) in
              subst
                (λ (v : Session).
                  lib.sign (user_claims lib machine.now v.user.id v.user.role) ≡ some v.token)
                same good
        ]
      ]

  -- The token of a login makes every call with it, while it has not expired, a call of that user with
  -- the role of then, and does not open the vault, also where it is sent as the token of the vault.
  pub authenticate_user-login :
      (laws : LibraryLaws lib) (machine : Machine) (email password : String) (us : Users)
      (s : Session) (t : ℕ)
      → (login lib machine email password us).0 ≡ ok s
      → t < seconds (machine.now + day) * 1000000000
      → let own : Context = record {
        user_id = some s.user.id;
        role = some s.user.role;
        vault_scope = none;
      } in
        (authenticate_user (lib.parse t) (some (bearer_of s.token [])) ≡ own)
        × (authenticate_user (lib.parse t) (some (bearer_of s.token (s.token ∷ []))) ≡ own)
  unfolding authenticate_user vault_scope_of
  authenticate_user-login laws machine email password us s t done early =
      let read =
        laws.parse-sign t (user_claims lib machine.now s.user.id s.user.role) s.token
          (login_signed machine email password us s done) early in
      (
        ground (arith, trim_prefix-bearer s.token, read),
        ground (arith, trim_prefix-bearer s.token, read),
      )

  admitted :
      (user_id method : String)
      → authorize
          (record { user_id = some user_id; role = some "admin"; vault_scope = some "super_admin" })
          method
        ≡ none
  unfolding authorize authorize_admin role_of has_vault
  admitted user_id method = ground arith

  opened :
      (token method : String) (t : ℕ) (user_id : String)
      → lib.parse t token
        ≡ some (record { user_id = user_id; role = "admin"; scope = "super_admin" })
      → authorize (authenticate_user (lib.parse t) (some (bearer_of token (token ∷ [])))) method
        ≡ none
  unfolding authenticate_user vault_scope_of
  opened token method t user_id read =
      subst (λ c. authorize c method ≡ none) (sym (ground (arith, trim_prefix-bearer token, read)))
        (admitted user_id method)

  -- The vault token that VerifyMasterKey gives is given only for the master key, which is not empty; for
  -- thirty minutes, sent as the token of the user and of the vault, it opens every method to any caller.
  pub authorize-verify_master_key :
      (laws : LibraryLaws lib) (master_key key token method : String) (now t : ℕ)
      (context : Context)
      → verify_master_key lib master_key now context key ≡ some token
      → t < seconds (now + half_hour) * 1000000000
      → (key ≡ master_key)
        × (key ≢ "")
        × (authorize (authenticate_user (lib.parse t) (some (bearer_of token (token ∷ [])))) method
            ≡ none)
  unfolding verify_master_key generate_vault_token
  authorize-verify_master_key laws master_key key token method now t context done early =
      elim (Bool-cases (key == master_key)) [
        | inl same ↦ elim (Bool-cases (master_key == "")) [
          | inl unset ↦ ground (arith, unset, done)
          | inr set ↦
              let good : lib.sign (vault_claims lib now (admin_session lib context.user_id))
                  ≡ some token =
                ground (arith, same, set, done) in
              let read =
                laws.parse-sign t (vault_claims lib now (admin_session lib context.user_id)) token
                  good early in
              (
                ground (arith, same, eq_iff key master_key),
                ground (arith, same, set, eq_iff key master_key, eq_iff key ""),
                opened token method t _ read,
              )
        ]
        | inr other ↦ ground (arith, other, done)
      ]
