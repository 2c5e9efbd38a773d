-- ===== src/Base/Errors.antt =====
-- Go's (value, error) pairs, and what a call of the database driver may do.
use Prim.Native.Nat.{ℕ}
use mathlib.Core.Path.{◌≡◌, refl}
use mathlib.Core.Logic.{◌⊎◌, inl, inr}
use mathlib.Core.Bool.{Bool, true, false}
use mathlib.Core.Option.{Option, none, some}
use stumpfworks_identity.Base.Tests.{if◌then◌else◌}

-- no_rows is sql.ErrNoRows, driver any failure of the database connection, constraint a violated
-- UNIQUE or REFERENCES clause, invalid the refusal of an argument, conflict a state that the
-- operation does not apply to, unavailable a failure outside the database, as of the source of random
-- bytes.
pub data Error : Type 0 where
  no_rows driver constraint invalid conflict unavailable : Error

-- A call that returns a value or stops its caller with an error.
pub data Result {ℓ} (Value : Type ℓ) : Type ℓ where
  err : Error → Result Value
  ok : Value → Result Value

infixl 5 ◌>>=◌
-- `if err != nil { return err }` after a call, and what comes next.
abbrev pub ◌>>=◌ {ℓ κ} :
    {Value : Type ℓ} {Next : Type κ} (call : Result Value) (next : Value → Result Next)
    → Result Next
err e >>= next = err e
ok value >>= next = next value

-- `if !b { return e }`
abbrev pub require : Bool → Error → Result (Unit {0})
require true e = ok tt
require false e = err e

-- `if b { return e }`
abbrev pub refuse : Bool → Error → Result (Unit {0})
refuse true e = err e
refuse false e = ok tt

abbrev pub or_fail {ℓ} : {A : Type ℓ} → Option A → Error → Result A
or_fail none e = err e
or_fail (some a) e = ok a

infixl 5 ◌>>◌
-- The same after a call that returns an error only.
abbrev pub ◌>>◌ {ℓ} : {Next : Type ℓ} → Result (Unit {0}) → Result Next → Result Next
err e >> next = err e
ok done >> next = next

-- Which calls of the driver fail, by their number in the operation.
abbrev pub Faults : Type 0
Faults = ℕ → Bool

-- A transaction: BeginTx is call 0 and Commit call 1; an error of the body, of either call or of a
-- statement leaves the database as it was (`defer tx.Rollback()`).
abbrev pub finish {ℓ} : {D : Type 0} {A : Type ℓ} → Faults → D → Result (A × D) → D × Result A
finish faults db (err e) = (db, err e)
finish faults db (ok (a, db')) = if faults 1 then (db, err driver) else (db', ok a)

abbrev pub transaction {ℓ} :
    {D : Type 0} {A : Type ℓ} → Faults → D → (D → Result (A × D)) → D × Result A
transaction faults db body = if faults 0 then (db, err driver) else finish faults db (body db)

module _ {ℓ κ} {Value : Type ℓ} {Next : Type κ} where
  -- What a chain that returns has gone through.
  pub >>=-eq-ok :
      (call : Result Value) (next : Value → Result Next) (last : Next)
      → (call >>= next) ≡ ok last
      → (value : Value) × (call ≡ ok value) × (next value ≡ ok last)
  >>=-eq-ok (err e) next last h = cc
  >>=-eq-ok (ok value) next last h = (value, refl, h)

pub Result-cases {ℓ} :
    {A : Type ℓ} (m : Result A) → ((a : A) × (m ≡ ok a)) ⊎ ((e : Error) × (m ≡ err e))
Result-cases (ok a) = inl (a, refl)
Result-cases (err e) = inr (e, refl)
