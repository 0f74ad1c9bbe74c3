-- ===== src/Device/Cached.antt =====
-- Calls in sequence, on a state that each hands on, also where it fails; those that read through the
-- read cache have it as their state.
pub mod Ends
use littlefs_v.Base.{ℕ, Bool, if◌then◌else◌, Option, some, none}
use littlefs_v.Errors.{Error, Outcome, ok, err, abort, out_of_fuel, fault}
use littlefs_v.Device.{Cache}

abbrev pub Stateful : Type 0 → Type 0 → Type 0
Stateful S A = S → S × Outcome A

abbrev pub Cached : Type 0 → Type 0
Cached A = Stateful Cache A

module _ {S A B : Type 0} where
  -- What follows a call that has returned no error.
  unfoldable pub follow : S × Outcome A → (A → Stateful S B) → S × Outcome B
  follow (rc, ok a) f = f a rc
  follow (rc, err e) f = (rc, err e)
  follow (rc, abort) f = (rc, abort)
  follow (rc, out_of_fuel) f = (rc, out_of_fuel)
  follow (rc, fault) f = (rc, fault)

infixl 5 ◌>>=◌
abbrev pub ◌>>=◌ : {S A B : Type 0} → Stateful S A → (A → Stateful S B) → Stateful S B
◌>>=◌ m f rc = follow (m rc) f

module _ {S A : Type 0} where
  abbrev pub pure : A → Stateful S A
  pure a rc = (rc, ok a)

  abbrev pub raise : Error → Stateful S A
  raise e rc = (rc, err e)

  abbrev pub lift : Outcome A → Stateful S A
  lift o rc = (rc, o)

  abbrev pub exhausted : Stateful S A
  exhausted rc = (rc, out_of_fuel)

  -- LFS_ERR_CORRUPT as a value, where the code goes on after it.
  unfoldable pub caught : S × Outcome A → S × Outcome (Option A)
  caught (rc, ok a) = (rc, ok (some a))
  caught (rc, err Error.corrupt) = (rc, ok none)
  caught (rc, err e) = (rc, err e)
  caught (rc, abort) = (rc, abort)
  caught (rc, out_of_fuel) = (rc, out_of_fuel)
  caught (rc, fault) = (rc, fault)

  unfoldable pub attempt : Stateful S A → Stateful S (Option A)
  attempt m rc = caught (m rc)

-- What is done without a value and with one.
unfoldable pub or_else : {A B : Type 0} → Option A → B → (A → B) → B
or_else none without with_it = without
or_else (some a) without with_it = with_it a
