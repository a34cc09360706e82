-- ===== src/Common/Errors.antt =====
-- Error codes as the strings of the wire: xsd_errors (include/xen/public/io/xs_wire.h), its use in
-- send_errno (xenstore-srv) and xenstore_get_error (xenstore-common).
use Prim.Native.String.{String}
use zephyr_xenlib.Prelude.{ℕ, ◌≡◌, refl, Option, none, some, List, [], ◌∷◌, length, if◌then◌else◌}
use zephyr_xenlib.Errno.{
  Errno, Errno-discrete, einval, eacces, eexist, eisdir, enoent, enomem, enospc, eio, enotempty,
  enosys, erofs, ebusy, eagain, eisconn, e2big, eperm, etimedout, enotsup, eproto, esrch, enotconn,
  enobufs, efault,
}
use mathlib.Core.Logic.{ite}
use zephyr_xenlib.Clib.{bytes, strncmp_eq}

-- struct xsd_errors
pub record XsdError : Type 0 where
  pub errnum : Errno
  pub errstring : List ℕ

abbrev xsd : Errno → String → XsdError
xsd e s = record { errnum = e; errstring = bytes s }

unfoldable pub xsd_errors : List XsdError
unfolding bytes
xsd_errors =
    xsd einval "EINVAL"
    ∷ xsd eacces "EACCES"
    ∷ xsd eexist "EEXIST"
    ∷ xsd eisdir "EISDIR"
    ∷ xsd enoent "ENOENT"
    ∷ xsd enomem "ENOMEM"
    ∷ xsd enospc "ENOSPC"
    ∷ xsd eio "EIO"
    ∷ xsd enotempty "ENOTEMPTY"
    ∷ xsd enosys "ENOSYS"
    ∷ xsd erofs "EROFS"
    ∷ xsd ebusy "EBUSY"
    ∷ xsd eagain "EAGAIN"
    ∷ xsd eisconn "EISCONN"
    ∷ xsd e2big "E2BIG"
    ∷ xsd eperm "EPERM"
    ∷ []

-- The loop of send_errno over the table; a code that is not in it is sent as EINVAL, the first.
string_in : List XsdError → Errno → List ℕ → List ℕ
string_in [] e untranslatable = untranslatable
string_in (x ∷ xs) e untranslatable =
    let rest = string_in xs e untranslatable in ite (Errno-discrete e x.errnum) x.errstring rest

unfoldable pub error_string : Errno → List ℕ
unfolding string_in bytes xsd_errors Errno-discrete
error_string e = string_in xsd_errors e (bytes "EINVAL")

-- The first entry that agrees in `len` bytes, or 0.
error_in : List XsdError → List ℕ → ℕ → Option Errno
error_in [] s len = none
error_in (x ∷ xs) s len =
    let rest = error_in xs s len in if strncmp_eq s x.errstring len then some x.errnum else rest

unfoldable pub get_error : List ℕ → ℕ → Option Errno
unfolding error_in xsd_errors strncmp_eq
get_error s len = error_in xsd_errors s len

-- the codes that the table has no string for
abbrev pub on_wire : Errno → Errno
on_wire etimedout = einval
on_wire enotsup = einval
on_wire eproto = einval
on_wire esrch = einval
on_wire enotconn = einval
on_wire enobufs = einval
on_wire efault = einval
on_wire e = e

-- xenstore_get_error of the string that send_errno sends for a code is that code; for a code that
-- xsd_errors does not have it is EINVAL.
pub get_error-error_string :
    (e : Errno) → get_error (error_string e) (length (error_string e)) ≡ some (on_wire e)
unfolding get_error error_string
get_error-error_string einval = refl
get_error-error_string _ = refl
