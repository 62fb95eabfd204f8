-- ===== src/Errno.antt =====
-- include/kernel/errno.h: the error numbers that the kernel returns, and results that are a value or a
-- negated error number.

pub data Errno : Type 0 where
  eperm enoent ebadf enomem eacces efault eexist enodev enotdir einval emfile enospc enosys
        enotempty :
      Errno

-- An `int` or `ssize_t` that is negative for an error. A count of type `size_t` that is returned as an
-- `ssize_t` stays the word that it is: from 2^31 on `ok` of it stands for a negative number, too.
pub data Result {ℓ} (A : Type ℓ) : Type ℓ where
  ok : A → Result A
  err : Errno → Result A

-- `if (err < 0) return err;`
infixl 5 ◌>>=◌
abbrev pub ◌>>=◌ {ℓ κ} : {A : Type ℓ} {B : Type κ} → Result A → (A → Result B) → Result B
ok a >>= f = f a
err e >>= f = err e
