-- ===== src/Errors.antt =====
-- The results of include/lfs.h: `enum lfs_error` and what a call can come to.
use littlefs_v.Base.{ℕ, ◌-◌, ◌^◌, List, ◌++◌, ltb, ◌==◌, if◌then◌else◌}

-- The negative codes of `enum lfs_error`; `other` is any other negative code of a device.
pub data Error : Type 0 where
  io corrupt noent exist notdir isdir notempty badf fbig inval nospc nomem noattr nametoolong :
      Error
  other : ℕ → Error

-- `ok` is LFS_ERR_OK with what the call hands back. `abort` is a failed LFS_ASSERT,
-- `out_of_fuel` a loop that has used up the rounds that it was given, and `fault` an access outside
-- an array.
pub data Outcome {ℓ} (A : Type ℓ) : Type ℓ where
  ok : A → Outcome A
  err : Error → Outcome A
  abort out_of_fuel fault : Outcome A

-- Bytes in front of those of a later round.
abbrev pub prepend : List ℕ → Outcome (List ℕ) → Outcome (List ℕ)
prepend bytes (ok rest) = ok (bytes ++ rest)
prepend bytes (err e) = err e
prepend bytes abort = abort
prepend bytes out_of_fuel = out_of_fuel
prepend bytes fault = fault

-- The number that a code is the negative of.
unfoldable pub code_of : Error → ℕ
code_of Error.io = 5
code_of Error.corrupt = 84
code_of Error.noent = 2
code_of Error.exist = 17
code_of Error.notdir = 20
code_of Error.isdir = 21
code_of Error.notempty = 39
code_of Error.badf = 9
code_of Error.fbig = 27
code_of Error.inval = 22
code_of Error.nospc = 28
code_of Error.nomem = 12
code_of Error.noattr = 61
code_of Error.nametoolong = 36
code_of (Error.other n) = n

unfoldable pub error_of : ℕ → Error
error_of n =
    if n == 5
    then Error.io
    else if n == 84
    then Error.corrupt
    else if n == 2
    then Error.noent
    else if n == 17
    then Error.exist
    else if n == 20
    then Error.notdir
    else if n == 21
    then Error.isdir
    else if n == 39
    then Error.notempty
    else if n == 9
    then Error.badf
    else if n == 27
    then Error.fbig
    else if n == 22
    then Error.inval
    else if n == 28
    then Error.nospc
    else if n == 12
    then Error.nomem
    else if n == 61
    then Error.noattr
    else if n == 36
    then Error.nametoolong
    else Error.other n

-- An `lfs_stag_t` or an `int` as its 32 bits: a negative one is an error's code.
unfoldable pub signed_result : ℕ → Outcome ℕ
signed_result t = if ltb t (2 ^ 31) then ok t else err (error_of (2 ^ 32 - t))
