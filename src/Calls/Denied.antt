-- ===== src/Calls/Denied.antt =====
-- acct.c, swapon.c, swapoff.c, mount.c, umount.c, umount2.c and unshare.c: nothing is forwarded.
use iamroot.Base.{ℕ, Option, some}
use iamroot.Base.Bytes.{Bytes}
use iamroot.Calls.{Proc, Ran, back}

unfoldable pub acct : Option Bytes → Proc → Ran ℕ
acct path p = back (some 0) p

unfoldable pub swapon : Option Bytes → ℕ → Proc → Ran ℕ
swapon path swapflags p = back (some 0) p

unfoldable pub swapoff : Option Bytes → Proc → Ran ℕ
swapoff path p = back (some 0) p

unfoldable pub mount : Option Bytes → Option Bytes → Option Bytes → ℕ → Proc → Ran ℕ
mount source target filesystemtype mountflags p = back (some 0) p

unfoldable pub umount : Option Bytes → Proc → Ran ℕ
umount target p = back (some 0) p

unfoldable pub umount2 : Option Bytes → ℕ → Proc → Ran ℕ
umount2 target flags p = back (some 0) p

unfoldable pub unshare : ℕ → Proc → Ran ℕ
unshare flags p = back (some 0) p
