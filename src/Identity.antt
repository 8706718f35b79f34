-- ===== src/Identity.antt =====
-- setuid.c, seteuid.c, setgid.c, setegid.c, setreuid.c, setregid.c, setresuid.c, setresgid.c,
-- getuid.c, geteuid.c, getgid.c, getegid.c, getresuid.c, getresgid.c, setfsuid.c and setfsgid.c:
-- the user and group numbers of the process are variables of the environment.
pub mod Numbers
pub mod Groups
pub mod Laws
pub mod Tests
use iamroot.Base.{ℕ, ◌%◌, List, Option, none, some, true, ◌==◌, if◌then◌else◌}
use iamroot.Base.Bytes.{Bytes, codes}
use iamroot.Base.Errno.{Reply, reply, refuse, einval}
use iamroot.Env.{getenv, setenv}
use Numbers.{print_unsigned, strtoul}

pub data IdKind : Type 0 where
  uid : IdKind
  euid : IdKind
  suid : IdKind
  gid : IdKind
  egid : IdKind
  sgid : IdKind
  fsuid : IdKind
  fsgid : IdKind

abbrev pub variable : IdKind → Bytes
variable uid = codes "IAMROOT_UID"
variable euid = codes "IAMROOT_EUID"
variable suid = codes "IAMROOT_SUID"
variable gid = codes "IAMROOT_GID"
variable egid = codes "IAMROOT_EGID"
variable sgid = codes "IAMROOT_SGID"
variable fsuid = codes "IAMROOT_FSUID"
variable fsgid = codes "IAMROOT_FSGID"

-- (uid_t)-1 and (gid_t)-1
abbrev pub no_id : ℕ
no_id = 4294967295

-- _getenv(name) ?: "0"
unfoldable pub or_zero : Option Bytes → Bytes
or_zero none = codes "0"
or_zero (some s) = s

-- if (errno) ul = 0; and the conversion to uid_t or gid_t
unfoldable pub to_id : Reply ℕ → ℕ
to_id (reply ul) = ul % 4294967296
to_id (refuse e) = 0

-- getuid(), geteuid(), getgid(), getegid(), and the third number of getresuid and getresgid
unfoldable pub get_id : IdKind → List Bytes → ℕ
get_id i env = to_id (strtoul (or_zero (getenv (variable i) env)))

unfoldable pub getuid : List Bytes → ℕ
getuid env = get_id uid env

unfoldable pub geteuid : List Bytes → ℕ
geteuid env = get_id euid env

unfoldable pub getgid : List Bytes → ℕ
getgid env = get_id gid env

unfoldable pub getegid : List Bytes → ℕ
getegid env = get_id egid env

-- _snprintf(buf, sizeof(buf), "%u", id) and _setenv(name, buf, 1)
unfoldable pub store_id : IdKind → ℕ → List Bytes → Reply (List Bytes)
store_id i id env = setenv (variable i) (print_unsigned id) true env

-- setuid(uid), seteuid(uid), setgid(gid), setegid(gid), setfsuid(fsuid) and setfsgid(fsgid)
unfoldable pub set_id : IdKind → ℕ → List Bytes → Reply (List Bytes)
set_id i id env = if id == no_id then refuse einval else store_id i id env

unfoldable pub setuid : ℕ → List Bytes → Reply (List Bytes)
setuid id env = set_id uid id env

unfoldable pub seteuid : ℕ → List Bytes → Reply (List Bytes)
seteuid id env = set_id euid id env

unfoldable pub setgid : ℕ → List Bytes → Reply (List Bytes)
setgid id env = set_id gid id env

unfoldable pub setegid : ℕ → List Bytes → Reply (List Bytes)
setegid id env = set_id egid id env

unfoldable pub setfsuid : ℕ → List Bytes → Reply (List Bytes)
setfsuid id env = set_id fsuid id env

unfoldable pub setfsgid : ℕ → List Bytes → Reply (List Bytes)
setfsgid id env = set_id fsgid id env

-- if (id != (uid_t)-1) { ret = seteuid(id); if (ret == -1) goto exit; }
unfoldable pub set_given : IdKind → ℕ → List Bytes → Reply (List Bytes)
set_given i id env = if id == no_id then reply env else set_id i id env

-- What follows a call that did not fail.
unfoldable pub and_then :
    Reply (List Bytes) → (List Bytes → Reply (List Bytes)) → Reply (List Bytes)
and_then (reply env) f = f env
and_then (refuse e) f = refuse e

-- setreuid(ruid, euid), and setregid(rgid, egid) with `gid` and `egid`
unfoldable pub set_re : IdKind → IdKind → ℕ → ℕ → List Bytes → Reply (List Bytes)
set_re real effective r e env = and_then (set_given effective e env) (set_given real r)

unfoldable pub setreuid : ℕ → ℕ → List Bytes → Reply (List Bytes)
setreuid ruid_asked euid_asked env = set_re uid euid ruid_asked euid_asked env

unfoldable pub setregid : ℕ → ℕ → List Bytes → Reply (List Bytes)
setregid rgid_asked egid_asked env = set_re gid egid rgid_asked egid_asked env

-- if (suid != (uid_t)-1) { ... _setenv("IAMROOT_SUID", buf, 1) ... }
unfoldable pub store_given : IdKind → ℕ → List Bytes → Reply (List Bytes)
store_given i id env = if id == no_id then reply env else store_id i id env

unfoldable pub setresuid : ℕ → ℕ → ℕ → List Bytes → Reply (List Bytes)
setresuid r e s env = and_then (setreuid r e env) (store_given suid s)

unfoldable pub setresgid : ℕ → ℕ → ℕ → List Bytes → Reply (List Bytes)
setresgid r e s env = and_then (setregid r e env) (store_given sgid s)
