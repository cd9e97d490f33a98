-- ===== src/Users/Calls.antt =====
-- Sequences of requests on the users, and what each request does to the table.
use enxame.Base.{
  ◌⊎◌, String, ◌≡◌, List, [], ◌∷◌, ◌++◌, arith, Bool-cases, Option-cases, inl, inr, length,
}
use enxame.Auth.{Context}
use enxame.Users.{
  User, Users, Machine, create_user, count_in_transaction, insert_in_transaction, row_of,
  get_user_by_email, get_user_by_id,
}
use enxame.Users.Server.{
  Library, RegisterRequest, user_of, is_incomplete, register, login, get_me, admin_update_user_role,
}

-- A registration leaves the table as it is or adds its row.
pub create_user_cases :
    (machine : Machine) (u : User) (us : Users)
    → ((create_user machine u us).1 ≡ us)
      ⊎ ((create_user machine u us).1 ≡ us ++ row_of machine u (length us) ∷ [])
unfolding create_user count_in_transaction insert_in_transaction
create_user_cases machine u us = ground arith

module _ (lib : Library) where
  -- The requests on users; an administrator may change a role.
  pub data Call : Type 0 where
    registers : Machine → RegisterRequest → Call
    logs_in : Machine → String → String → Call
    gets_me : Machine → Context → Call
    updates_role : Machine → String → String → Call

  unfoldable pub step : Users → Call → Users
  step us (registers machine req) = (register lib machine req us).1
  step us (logs_in machine email password) = (login lib machine email password us).1
  step us (gets_me machine context) = (get_me lib machine context us).1
  step us (updates_role machine id role) = (admin_update_user_role lib machine id role us).1

  unfoldable pub run : Users → List Call → Users
  run us [] = us
  run us (c ∷ cs) = run (step us c) cs

  pub register_state :
      (machine : Machine) (req : RegisterRequest) (us : Users)
      → ((register lib machine req us).1 ≡ us)
        ⊎ ((hash : String) × ((register lib machine req us).1
              ≡ (create_user machine (user_of lib req hash) us).1))
  unfolding register
  register_state machine req us =
      elim (Option-cases (lib.hash_password machine.salt req.password)) [
        | inl bad ↦ inl (ground (arith, bad))
        | inr (hash, good) ↦ elim (Bool-cases (is_incomplete lib req)) [
          | inl yes' ↦ inl (ground (arith, yes'))
          | inr no' ↦ inr (hash, ground (arith, good, no'))
        ]
      ]

  pub login_state :
      (machine : Machine) (email password : String) (us : Users)
      → (login lib machine email password us).1 ≡ us
  unfolding login get_user_by_email
  login_state machine email password us = ground arith

  pub get_me_state :
      (machine : Machine) (context : Context) (us : Users) → (get_me lib machine context us).1 ≡ us
  unfolding get_me get_user_by_id
  get_me_state machine context us = ground arith
