-- ===== src/Users/Accounts.antt =====
-- The rows that a login finds, and what changes of the table keep of them.
use enxame.Base.{
  String, ◌≡◌, Bool, true, false, [], ◌∷◌, ◌++◌, some, arith, Bool-cases, inl, inr, any,
}
use enxame.Base.Text.{trim_prefix}
use enxame.Users.{User, Users, select, has_email, has_id, set_role}
use text.Mathlib.TextEquality.{starts_with_iff}
use text.Mathlib.TextLemmas.{prefix-append}
use text.Mathlib.TextPositions.{slice-append_right, len-append}
use Prim.Native.String

-- The first row with an email has this id and this hash.
abbrev pub HasAccount : String → String → String → Users → Type 0
HasAccount email id hash us =
    (u : User) × (select (has_email email) us ≡ some u) × (u.id ≡ id) × (u.password_hash ≡ hash)

select-append :
    (p : User → Bool) (us : Users) (u v : User)
    → select p us ≡ some u
    → select p (us ++ v ∷ []) ≡ some u
select-append p [] u v h = ground (arith, h)
select-append p (w ∷ us) u v h = ground (arith, h, select-append p us u v)

pub select-append_new :
    (p : User → Bool) (us : Users) (v : User)
    → any p us ≡ false
    → p v ≡ true
    → select p (us ++ v ∷ []) ≡ some v
select-append_new p [] v h k = ground (arith, k)
select-append_new p (w ∷ us) v h k = ground (arith, h, k, select-append_new p us v)

pub set_role-HasAccount :
    (email id hash target role : String) (us : Users)
    → HasAccount email id hash us
    → HasAccount email id hash (set_role target role us)
set_role-HasAccount email id hash target role [] h = h
set_role-HasAccount email id hash target role (u ∷ us) (v, found, own, kept) =
    elim (Bool-cases (has_email email u)) [
      | inl yes' ↦ elim (Bool-cases (has_id target u)) [
        | inl hit ↦ (
          record u { role = role },
          ground (arith, yes', hit),
          ground (arith, yes', found, own),
          ground (arith, yes', found, kept),
        )
        | inr miss ↦ (
          u,
          ground (arith, yes', miss),
          ground (arith, yes', found, own),
          ground (arith, yes', found, kept),
        )
      ]
      | inr no' ↦
          let rest =
            set_role-HasAccount email id hash target role us
              (v, ground (arith, no', found), own, kept) in
          (rest.0, ground (arith, no', rest.1), rest.2, rest.3)
    ]

pub append-HasAccount :
    (email id hash : String) (us : Users) (v : User)
    → HasAccount email id hash us
    → HasAccount email id hash (us ++ v ∷ [])
append-HasAccount email id hash us v (u, found, own, kept) =
    (u, select-append (has_email email) us u v found, own, kept)

pub trim_prefix-bearer :
    (token : String) → trim_prefix (String.◌++◌ "Bearer " token) "Bearer " ≡ token
unfolding trim_prefix
trim_prefix-bearer token = ground (
  arith,
  (starts_with_iff (String.◌++◌ "Bearer " token) "Bearer ").1 (prefix-append "Bearer " token),
  slice-append_right "Bearer " token,
  len-append "Bearer " token,
)
