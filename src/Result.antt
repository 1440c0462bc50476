-- ===== src/Result.antt =====
-- What a call returns: a value, a negative errno, the abort of `exfat_bug`, or the mark of a loop
-- of the model whose bound on rounds was too small (no theorem lets that stand for a result).
use nuclear_armageddon.Prelude.{Option, none, some}

-- The errno codes of the modelled functions, negated by the callers.
pub data Errno : Type 0 where
  eilseq enametoolong eio enospc enoent einval enomem eperm eexist eisdir enotdir enotempty : Errno

pub data Result {ℓ} (A : Type ℓ) : Type ℓ where
  ok : A → Result A
  err : Errno → Result A
  bug : Result A
  out_of_fuel : Result A

infixl 5 ◌>>=◌
abbrev pub ◌>>=◌ {ℓ κ} : {A : Type ℓ} {B : Type κ} → Result A → (A → Result B) → Result B
ok a >>= f = f a
err e >>= f = err e
bug >>= f = bug
out_of_fuel >>= f = out_of_fuel

-- A null pointer that the caller turns into an errno.
abbrev pub or_err {ℓ} : {A : Type ℓ} → Option A → Errno → Result A
or_err none e = err e
or_err (some a) e = ok a
