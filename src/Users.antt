-- ===== src/Users.antt =====
-- The users of the core: the table users of CreateTables and the methods of UserRepository in
-- internal/repository/postgres/user_repository.go.
use enxame.Base.{
  ℕ, zero, suc, String, Bool, true, not, ◌&&◌, ◌||◌, List, [], ◌∷◌, ◌++◌, Option, none, some,
  if◌then◌else◌, length, any, is_some,
}
use enxame.Base.Text.{◌==◌}
use enxame.Base.Exec.{ok, Exec, ◌>>=◌, ◌>>◌, pure, fail, gets, modify, refuse_if}
use enxame.Nodes.Database.{fits}
pub mod Server
pub mod Calls
pub mod Owner
pub mod Accounts
pub mod Sessions
mod Tests

pub record User : Type 0 where
  pub id : String
  pub email : String
  pub password_hash : String
  pub full_name : String
  pub phone : String
  pub nickname : String
  pub role : String
  pub created_at : ℕ

-- The errors of the methods and, with their codes, of the server above them.
pub data UserError : Type 0 where
  database_failed : UserError
  missing_field hash_failed token_failed create_failed : UserError
  invalid_credentials not_authenticated user_not_found : UserError

-- The statements of a call, each of which may fail for reasons outside the program.
pub data Statement : Type 0 where
  begin_transaction count_users insert_user commit_transaction : Statement
  select_by_email select_by_id update_role count_total : Statement

-- What the machine supplies to a call: the time, a new UUID, the randomness of a hash, how PostgreSQL
-- reads a text as a UUID, which is none where it is not one and otherwise its usual form, and the
-- statements that fail.
pub record Machine : Type 0 where
  pub now : ℕ
  pub new_id : String
  pub salt : ℕ
  pub uuid_of : String → Option String
  pub fails : Statement → Bool

-- The rows in the order of their insertion.
abbrev pub Users : Type 0
Users = List User

abbrev pub Repository : Type 0 → Type 0
Repository A = Exec Users UserError A

abbrev pub statement : Machine → Statement → Bool → Repository Unit
statement machine st allowed = refuse_if (machine.fails st || not allowed) database_failed

-- The lengths of the columns, the primary key, and the two columns that are unique.
abbrev pub is_admitted : User → Users → Bool
is_admitted u users =
    ((((fits 255 u.email && fits 255 u.password_hash) && fits 255 u.full_name) && fits 32 u.phone)
      && (fits 64 u.nickname && fits 16 u.role))
    && (not (any (λ v. v.id == u.id) users)
        && (not (any (λ v. v.email == u.email) users)
            && not (any (λ v. v.nickname == u.nickname) users)))

-- The first user is the owner.
abbrev pub role_for : ℕ → String
role_for zero = "owner"
role_for (suc n) = "member"

-- The transaction of CreateUser up to the count, which is the users that are committed.
unfoldable pub count_in_transaction : Machine → Repository ℕ
count_in_transaction machine = do
  statement machine begin_transaction true
  statement machine count_users true
  gets length

abbrev pub row_of : Machine → User → ℕ → User
row_of machine u count = record u {
  id = machine.new_id;
  role = role_for count;
  created_at = machine.now;
}

-- The rest of the transaction: other calls see the row when it is committed, and never otherwise.
unfoldable pub insert_in_transaction : Machine → User → ℕ → Repository User
insert_in_transaction machine u count = do
  admitted ← gets (λ users. is_admitted (row_of machine u count) users)
  statement machine insert_user admitted
  statement machine commit_transaction true
  modify (λ users. users ++ row_of machine u count ∷ [])
  pure (row_of machine u count)

unfoldable pub create_user : Machine → User → Repository User
unfolding count_in_transaction insert_in_transaction
create_user machine u = do
  count ← count_in_transaction machine
  insert_in_transaction machine u count

-- The first row that a condition holds of; the conditions of the methods hold of one row at most.
abbrev pub select : (User → Bool) → Users → Option User
select p [] = none
select p (u ∷ us) = if p u then some u else select p us

abbrev pub has_email : String → User → Bool
has_email email u = u.email == email

abbrev pub has_id : String → User → Bool
has_id id u = u.id == id

unfoldable pub get_user_by_email : Machine → String → Repository (Option User)
get_user_by_email machine email = do
  statement machine select_by_email true
  gets (select (has_email email))

-- The id is a column of UUIDs: another text is an error of the statement.
abbrev pub uuid_or_fail : Machine → String → Repository String
uuid_or_fail machine id = elim (machine.uuid_of id) [
  | none ↦ fail database_failed
  | some key ↦ pure key
]

unfoldable pub get_user_by_id : Machine → String → Repository (Option User)
get_user_by_id machine id = do
  key ← uuid_or_fail machine id
  statement machine select_by_id true
  gets (select (has_id key))

abbrev pub set_role : String → String → Users → Users
set_role id role [] = []
set_role id role (u ∷ us) =
    (if has_id id u then record u { role = role } else u) ∷ set_role id role us

-- An UPDATE of no row is no error.
unfoldable pub update_user_role : Machine → String → String → Repository Unit
update_user_role machine id role = do
  key ← uuid_or_fail machine id
  row ← gets (select (has_id key))
  statement machine update_role (not (is_some row) || fits 16 role)
  modify (set_role key role)

unfoldable pub get_total_users : Machine → Repository ℕ
get_total_users machine = do statement machine count_total true; gets length
