-- ===== src/Users/Owner.antt =====
-- Who becomes the owner of the network.
use enxame.Base.{ℕ, ◌≡◌, refl, sym, subst, true, false, List, [], ◌∷◌, ◌++◌, inl, inr, length, All}
use enxame.Base.Exec.{ok, ◌>>=◌}
use enxame.Users.{
  User, Users, Machine, Statement, Repository, create_user, count_in_transaction,
  insert_in_transaction, is_admitted, row_of, begin_transaction, count_users, insert_user,
  commit_transaction,
}
use enxame.Users.Calls.{
  Call, registers, logs_in, gets_me, updates_role, step, run, register_state, login_state,
  get_me_state, create_user_cases,
}
use enxame.Users.Server.{Library, user_of}

-- The first user is the owner, and all others are members.
abbrev pub HasFirstOwner : Users → Type 0
HasFirstOwner [] = Unit
HasFirstOwner (u ∷ us) = (u.role ≡ "owner") × All (λ v. v.role ≡ "member") us

All-append : (P : User → Type 0) (us : Users) (u : User) → All P us → P u → All P (us ++ u ∷ [])
All-append P [] u h k = (k, tt)
All-append P (v ∷ us) u h k = (h.0, All-append P us u h.1 k)

HasFirstOwner-append :
    (machine : Machine) (u : User) (us : Users)
    → HasFirstOwner us
    → HasFirstOwner (us ++ row_of machine u (length us) ∷ [])
HasFirstOwner-append machine u [] h = (refl, tt)
HasFirstOwner-append machine u (v ∷ us) h = (h.0, All-append (λ v. v.role ≡ "member") us _ h.1 refl)

create_user-HasFirstOwner :
    (machine : Machine) (u : User) (us : Users)
    → HasFirstOwner us
    → HasFirstOwner (create_user machine u us).1
create_user-HasFirstOwner machine u us h = elim (create_user_cases machine u us) [
  | inl same ↦ subst HasFirstOwner (sym same) h
  | inr added ↦ subst HasFirstOwner (sym added) (HasFirstOwner-append machine u us h)
]

module _ (lib : Library) where
  -- A request of a user, not of an administrator.
  abbrev pub IsUserCall : Call lib → Type 0
  IsUserCall (updates_role machine id role) = ⊥
  IsUserCall _ = Unit

  step-HasFirstOwner :
      (us : Users) (c : Call lib) → IsUserCall c → HasFirstOwner us → HasFirstOwner (step lib us c)
  unfolding step
  step-HasFirstOwner us (registers machine req) k h = elim (register_state lib machine req us) [
    | inl same ↦ subst HasFirstOwner (sym same) h
    | inr (hash, created) ↦
        subst HasFirstOwner (sym created)
          (create_user-HasFirstOwner machine (user_of lib req hash) us h)
  ]
  step-HasFirstOwner us (logs_in machine email password) k h =
      subst HasFirstOwner (sym (login_state lib machine email password us)) h
  step-HasFirstOwner us (gets_me machine context) k h =
      subst HasFirstOwner (sym (get_me_state lib machine context us)) h
  step-HasFirstOwner us (updates_role machine id role) k h = absurd k

  run_from-HasFirstOwner :
      (us : Users) (cs : List (Call lib))
      → All IsUserCall cs
      → HasFirstOwner us
      → HasFirstOwner (run lib us cs)
  unfolding run
  run_from-HasFirstOwner us [] k h = h
  run_from-HasFirstOwner us (c ∷ cs) k h =
      run_from-HasFirstOwner (step lib us c) cs k.1 (step-HasFirstOwner us c k.0 h)

  -- On a table that was empty, after any requests that change no role, each whole before the next, the
  -- first user is the owner and every other is a member.
  pub run-HasFirstOwner : (cs : List (Call lib)) → All IsUserCall cs → HasFirstOwner (run lib [] cs)
  run-HasFirstOwner cs k = run_from-HasFirstOwner [] cs k tt

count_ok :
    (machine : Machine) (us : Users)
    → ((st : Statement) → machine.fails st ≡ false)
    → count_in_transaction machine us ≡ (ok (length us), us)
unfolding count_in_transaction
count_ok machine us works = rw (works begin_transaction) (rw (works count_users) refl)

insert_ok :
    (machine : Machine) (u : User) (count : ℕ) (us : Users)
    → ((st : Statement) → machine.fails st ≡ false)
    → is_admitted (row_of machine u count) us ≡ true
    → insert_in_transaction machine u count us
      ≡ (ok (row_of machine u count), us ++ row_of machine u count ∷ [])
unfolding insert_in_transaction
insert_ok machine u count us works fit =
    rw (fit, is_admitted) (rw (works insert_user) (rw (works commit_transaction) refl))

-- Two transactions, of which the second counts before the first commits.
unfoldable pub interleaved : Machine → Machine → User → User → Repository User
unfolding count_in_transaction insert_in_transaction
interleaved first second u v = do
  count ← count_in_transaction first
  other ← count_in_transaction second
  created ← insert_in_transaction first u count
  insert_in_transaction second v other

-- When two users register on an empty table at the same time, with values that the columns admit and
-- that differ where they are unique, both become the owner.
pub two_owners :
    (first second : Machine) (u v : User)
    → ((st : Statement) → first.fails st ≡ false)
    → ((st : Statement) → second.fails st ≡ false)
    → is_admitted (row_of first u 0) [] ≡ true
    → is_admitted (row_of second v 0) (row_of first u 0 ∷ []) ≡ true
    → (interleaved first second u v []).1 ≡ row_of first u 0 ∷ row_of second v 0 ∷ []
unfolding interleaved
two_owners first second u v works runs fit_first fit_second = rw (count_ok first [] works) (
    rw (count_ok second [] runs) (
      rw (insert_ok first u 0 [] works fit_first)
        (rw (insert_ok second v 0 (row_of first u 0 ∷ []) runs fit_second) refl)))
