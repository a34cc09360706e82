-- ===== src/Errno.antt =====
-- The error codes that xenstore-common and xenstore-srv return (negated), as an enumeration, and
-- the results of functions that return 0 or a size, or a negative code.

pub data Errno : Type 0 where
  einval eacces eexist eisdir enoent enomem enospc eio : Errno
  enotempty enosys erofs ebusy eagain eisconn e2big eperm : Errno
  etimedout enotsup eproto esrch enotconn enobufs efault : Errno

unfoldable pub Errno-discrete : Discrete Errno
Errno-discrete = hlevel

pub data Result {ℓ} (A : Type ℓ) : Type ℓ where
  ok : A → Result A
  err : Errno → Result A

infixl 5 ◌>>=◌
abbrev pub ◌>>=◌ {ℓ κ} : {A : Type ℓ} {B : Type κ} → Result A → (A → Result B) → Result B
ok a >>= f = f a
err e >>= f = err e
