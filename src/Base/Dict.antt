-- ===== src/Base/Dict.antt =====
-- Go's maps with string keys (map and sync.Map), as association lists. The order in which Go ranges
-- over a map is not specified; here it is the order of the list.
use enxame.Base.Tests.{if◌then◌else◌, is_some}
use enxame.Base.Lists.{length}
use Prim.Native.Nat.{suc}
use Prim.Native.String.{String}
use mathlib.Core.Path.{◌≡◌, refl}
use mathlib.Core.Bool.{Bool, false}
use mathlib.Core.Option.{Option, none, some}
use mathlib.Core.List.{List, [], ◌∷◌}
use native.Mathlib.Omega.{arith}
use text.Mathlib.Text.{◌==◌}
use text.Mathlib.TextEquality.{eq_iff}
use text.Mathlib.TextPositions.{eq_refl}

abbrev pub Dict {ℓ} : Type ℓ → Type ℓ
Dict V = List (String × V)

module _ {ℓ} {V : Type ℓ} where
  unfoldable pub lookup : String → Dict V → Option V
  lookup key [] = none
  lookup key ((other, val) ∷ kvs) = if other == key then some val else lookup key kvs

  -- m[k] = v
  unfoldable pub insert : String → V → Dict V → Dict V
  insert key val [] = (key, val) ∷ []
  insert key val ((other, x) ∷ kvs) =
      if other == key then (key, val) ∷ kvs else (other, x) ∷ insert key val kvs

  -- delete(m, k)
  unfoldable pub delete : String → Dict V → Dict V
  delete key [] = []
  delete key ((other, x) ∷ kvs) =
      let rest = delete key kvs in if other == key then rest else (other, x) ∷ rest

  abbrev pub has : String → Dict V → Bool
  has key kvs = is_some (lookup key kvs)

  abbrev pub keys : Dict V → List String
  keys [] = []
  keys ((other, x) ∷ kvs) = other ∷ keys kvs

  -- No key stands twice.
  abbrev pub Distinct : Dict V → Type 0
  Distinct [] = Unit
  Distinct ((other, x) ∷ kvs) = (has other kvs ≡ false) × Distinct kvs

  pub lookup-insert :
      (key other : String) (val : V) (kvs : Dict V)
      → lookup other (insert key val kvs) ≡ (if key == other then some val else lookup other kvs)
  unfolding lookup insert
  lookup-insert key other val [] = refl
  lookup-insert key other val ((i, x) ∷ kvs) =
      ground
        (arith, eq_iff key other, eq_iff i key, eq_iff i other, lookup-insert key other val kvs)

  pub lookup-delete :
      (key other : String) (kvs : Dict V)
      → lookup other (delete key kvs) ≡ (if key == other then none else lookup other kvs)
  unfolding lookup delete
  lookup-delete key other [] = ground arith
  lookup-delete key other ((i, x) ∷ kvs) =
      ground (arith, lookup-delete key other kvs, eq_iff i key, eq_iff i other, eq_iff key other)

  pub insert-Distinct :
      (key : String) (val : V) (kvs : Dict V) → Distinct kvs → Distinct (insert key val kvs)
  unfolding lookup insert
  insert-Distinct key val [] d = (refl, tt)
  insert-Distinct key val ((i, x) ∷ kvs) (h, d) = ground (
    arith,
    eq_iff i key,
    eq_iff key i,
    insert-Distinct key val kvs d,
    lookup-insert key i val kvs,
  )

  pub delete-Distinct : (key : String) (kvs : Dict V) → Distinct kvs → Distinct (delete key kvs)
  unfolding lookup delete
  delete-Distinct key [] d = tt
  delete-Distinct key ((i, x) ∷ kvs) (h, d) =
      ground (arith, eq_iff i key, eq_iff key i, delete-Distinct key kvs d, lookup-delete key i kvs)

  delete_absent : (key : String) (kvs : Dict V) → has key kvs ≡ false → delete key kvs ≡ kvs
  unfolding lookup delete
  delete_absent key [] h = refl
  delete_absent key ((i, x) ∷ kvs) h = ground (arith, delete_absent key kvs)

  pub length-insert :
      (key : String) (val : V) (kvs : Dict V)
      → length (insert key val kvs) ≡ (if has key kvs then length kvs else suc (length kvs))
  unfolding lookup insert
  length-insert key val [] = refl
  length-insert key val ((i, x) ∷ kvs) = ground (arith, length-insert key val kvs)

  pub length-delete :
      (key : String) (kvs : Dict V)
      → Distinct kvs
      → length kvs
        ≡ (if has key kvs then suc (length (delete key kvs)) else length (delete key kvs))
  unfolding lookup delete
  length-delete key [] d = refl
  length-delete key ((i, x) ∷ kvs) (h, d) =
      ground (arith, eq_iff i key, length-delete key kvs d, delete_absent i kvs)

pub ruleset dict_laws = (lookup-insert, lookup-delete, eq_refl)
