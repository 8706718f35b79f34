-- ===== src/Calls/Requests/Forgiven.antt =====
-- Calls that an unprivileged process may not make, and that seem to succeed.
use iamroot.Base.{ℕ, ◌≢◌, List, Option, none, some}
use iamroot.Base.Bytes.{Bytes}
use iamroot.Base.Errno.{refuse, eperm}
use iamroot.Path.Resolution.{Dirfd, AtFlags}
use iamroot.Calls.{Host, Ran, back, crashed, stuck, Call}
use iamroot.Calls.Requests.{
  Request, ask_chmod, ask_fchmod, ask_fchmodat, ask_chown, ask_lchown, ask_fchown, ask_fchownat,
  ask_kill,
}

-- The requests whose host call may give EPERM
pub data Privileged : Request → Type 0 where
  of_chmod : (path : Option Bytes) (mode : ℕ) → Privileged (ask_chmod path mode)
  of_fchmod : (dfd : Dirfd) (mode : ℕ) → Privileged (ask_fchmod dfd mode)
  of_fchmodat :
      (dfd : Dirfd) (path : Option Bytes) (mode : ℕ) (atflags : AtFlags)
      → Privileged (ask_fchmodat dfd path mode atflags)
  of_chown : (path : Option Bytes) (owner group : ℕ) → Privileged (ask_chown path owner group)
  of_lchown : (path : Option Bytes) (owner group : ℕ) → Privileged (ask_lchown path owner group)
  of_fchown : (dfd : Dirfd) (owner group : ℕ) → Privileged (ask_fchown dfd owner group)
  of_fchownat :
      (dfd : Dirfd) (path : Option Bytes) (owner group : ℕ) (atflags : AtFlags)
      → Privileged (ask_fchownat dfd path owner group atflags)
  of_kill : (pid sig : ℕ) → Privileged (ask_kill pid sig)

abbrev Forgives : Ran ℕ → Type 0
Forgives (back none q) = q.errno ≢ eperm
Forgives (back (some n) q) = Unit
Forgives crashed = Unit
Forgives stuck = Unit

-- readlink(2) has no error EPERM.
abbrev pub LinksReadable : Host → Type 0
LinksReadable h = (log : List Call) (n : ℕ) → (h.fs log).fd_link n ≢ refuse eperm
