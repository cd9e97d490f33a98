-- ===== src/Base/Exec.antt =====
-- Go methods that change an object, and may return an error or panic. What was written before an
-- error or a panic stays written, so the state comes back beside each outcome.
use enxame.Base.Tests.{if◌then◌else◌, ltb}
use mathlib.Core.Bool.{Bool}
use mathlib.Core.Path.{◌≡◌, refl}
use Prim.Native.String.{String, len}

pub data Outcome {ℓ} (E A : Type ℓ) : Type ℓ where
  ok : A → Outcome E A
  err : E → Outcome E A
  panic : Outcome E A

abbrev pub Exec {ℓ} : Type ℓ → Type ℓ → Type ℓ → Type ℓ
Exec S E A = S → Outcome E A × S

abbrev pub carry {ℓ} : {S E A B : Type ℓ} → Outcome E A → (A → Exec S E B) → Exec S E B
carry (ok a) f s = f a s
carry (err e) f s = (err e, s)
carry panic f s = (panic, s)

infixl 5 ◌>>=◌ ◌>>◌
abbrev pub ◌>>=◌ {ℓ} : {S E A B : Type ℓ} → Exec S E A → (A → Exec S E B) → Exec S E B
◌>>=◌ m f s = carry (m s).0 f (m s).1

abbrev pub ◌>>◌ {ℓ} : {S E B : Type ℓ} → Exec S E (Unit {ℓ}) → Exec S E B → Exec S E B
m >> k = m >>= λ _. k

module _ {ℓ} {S E : Type ℓ} where
  abbrev pub pure : {A : Type ℓ} → A → Exec S E A
  pure a s = (ok a, s)

  abbrev pub fail : {A : Type ℓ} → E → Exec S E A
  fail e s = (err e, s)

  abbrev pub abort : {A : Type ℓ} → Exec S E A
  abort s = (panic, s)

  abbrev pub gets : {A : Type ℓ} → (S → A) → Exec S E A
  gets f s = (ok (f s), s)

  abbrev pub modify : (S → S) → Exec S E (Unit {ℓ})
  modify f s = (ok tt, f s)

  -- The early return of an error.
  abbrev pub refuse_if : Bool → E → Exec S E (Unit {ℓ})
  refuse_if b e s = if b then (err e, s) else (ok tt, s)

  -- A branch on a test.
  abbrev pub choose : {A : Type ℓ} → Bool → Exec S E A → Exec S E A → Exec S E A
  choose b m n s = if b then m s else n s

  -- A log line that prints id[:8]: the slice expression panics on fewer than eight bytes.
  abbrev pub log_id : String → Exec S E (Unit {ℓ})
  log_id id s = if ltb (len id) 8 then (panic, s) else (ok tt, s)

-- A rule for invariants: what both parts of a sequence keep, the sequence keeps.
pub carry-keeps {ℓ} :
    {S E A B : Type ℓ} (P : S → Type ℓ) (o : Outcome E A) (f : A → Exec S E B) (t : S)
    → P t
    → ((a : A) → P t → P (f a t).1)
    → P (carry o f t).1
carry-keeps P (ok a) f t h k = k a h
carry-keeps P (err e) f t h k = h
carry-keeps P panic f t h k = h

-- The same, where the second part needs to keep it only if the first succeeds.
pub carry-keeps_if {ℓ} :
    {S E A B : Type ℓ} (P : S → Type ℓ) (o : Outcome E A) (f : A → Exec S E B) (t : S)
    → P t
    → ((a : A) → o ≡ ok a → P (f a t).1)
    → P (carry o f t).1
carry-keeps_if P (ok a) f t h k = k a refl
carry-keeps_if P (err e) f t h k = h
carry-keeps_if P panic f t h k = h

-- The rule for a sequence of two methods, each of which keeps it in every state.
pub bind-keeps {ℓ} :
    {S E A B : Type ℓ} (P : S → Type ℓ) (m : Exec S E A) (f : A → Exec S E B)
    → ((s : S) → P s → P (m s).1)
    → ((a : A) (s : S) → P s → P (f a s).1)
    → (s : S) → P s
    → P (carry (m s).0 f (m s).1).1
bind-keeps P m f h k s v = carry-keeps P (m s).0 f (m s).1 (h s v) (λ a w. k a (m s).1 w)
