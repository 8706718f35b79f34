-- ===== src/Loader/Places.antt =====
-- dso.c: the directories where the libraries of a program are looked for, by __felf_flags_1,
-- __felf_rpath, __felf_runpath, __secure_execution_mode, __fld_lib_path, __ld_lib_path,
-- __ld_library_path and __ldso_access. -1 is `none`. What __felf_deflib and __ldso_cache answer are
-- parameters.
pub mod Rooted
pub mod Short
pub mod Access
pub mod Tests
use iamroot.Base.{
  ℕ, ◌%◌, Bool, true, false, not, ◌||◌, List, [], ◌∷◌, ◌++◌, Option, none, some, ◌==◌, ltb,
  if◌then◌else◌, length,
}
use iamroot.Base.Bytes.{Bytes, path_max, strncpy}
use iamroot.Base.Bits.{has_bit}
use iamroot.Base.Errno.{Reply, reply, refuse, enoent}
use iamroot.Path.Text.{is_nil}
use iamroot.Identity.{getuid, geteuid, getgid, getegid}
use iamroot.Identity.Groups.{strtok}
use iamroot.Elf.{Order, load}
use iamroot.Elf.Interp.{File}
use iamroot.Elf.Dynamic.{Value, integer, text, minus_one, iterate_shared_object}
use iamroot.Calls.{Proc, Ran, back, crashed, stuck}
use iamroot.Loader.Paths.{colon, has_slash, path_strncat, getld_library_path}
use iamroot.Loader.Preload.{path_callback, unless_failed}

-- DT_RPATH, DT_RUNPATH and DT_FLAGS_1, and the bit of DF_1_NODEFLIB
abbrev pub dt_rpath : ℕ
dt_rpath = 15

abbrev pub dt_runpath : ℕ
dt_runpath = 29

abbrev pub dt_flags_1 : ℕ
dt_flags_1 = 1879048187

abbrev pub nodeflib_bit : ℕ
nodeflib_bit = 11

abbrev pub on_some {ℓ κ} : {A : Type ℓ} {B : Type κ} → Option A → (A → Option B) → Option B
on_some none k = none
on_some (some a) k = k a

module _ (order : Order) (f : File) where
  -- __flags_callback(data, datasiz, user), on a host that is little-endian
  unfoldable pub flags_callback : Value → ℕ → ℕ × ℕ
  flags_callback (integer n) flags = (0, n % 4294967296)
  flags_callback (text bs) flags = (0, load order bs % 4294967296)

  abbrev flags_of : ℕ × ℕ → Option ℕ
  flags_of (r, flags) = if r == minus_one then none else some flags

  -- __felf_flags_1(fd, flags)
  unfoldable pub felf_flags_1 : Option ℕ
  felf_flags_1 = flags_of (iterate_shared_object flags_callback order f dt_flags_1 0)

  -- __felf_rpath and __felf_runpath, into a buffer of PATH_MAX bytes
  unfoldable pub felf_rpath : Option Bytes
  felf_rpath = unless_failed (iterate_shared_object path_callback order f dt_rpath [])

  unfoldable pub felf_runpath : Option Bytes
  felf_runpath = unless_failed (iterate_shared_object path_callback order f dt_runpath [])

-- (uid_t)-1 and (gid_t)-1, at which getresuid and getresgid of iamroot fail
abbrev pub is_none : ℕ → Bool
is_none id = id == 4294967295

-- __secure_execution_mode(), which is not 0, and may be -1
unfoldable pub secure_execution_mode : List Bytes → Bool
secure_execution_mode env =
    (is_none (getuid env) || is_none (geteuid env))
    || (is_none (getgid env) || is_none (getegid env))
    || (not (getuid env == geteuid env) || not (getgid env == getegid env))

abbrev pub kept : Reply Bytes → Option Bytes
kept (reply s) = some s
kept (refuse e) = none

-- str = __path_strncat(buf+offset, tmp, bufsiz-offset); if (!str) return -1;
unfoldable pub cat : ℕ → Bytes → Bytes → Option Bytes
cat bufsiz buf tmp = kept (path_strncat buf tmp bufsiz)

module _ (order : Order) (deflib : Option Bytes) (env : List Bytes) (f : File) (bufsiz : ℕ) where
  -- (5)
  unfoldable pub add_deflib : ℕ → Option Bytes
  add_deflib flags_1 =
      if has_bit nodeflib_bit flags_1 then some [] else on_some deflib λ tmp. cat bufsiz [] tmp

  -- (3)
  unfoldable pub add_runpath : Bytes → Bytes → Option Bytes
  add_runpath runpath buf = if is_nil runpath then some buf else cat bufsiz buf runpath

  -- (2)
  unfoldable pub add_ld_library_path : Bytes → Option Bytes
  add_ld_library_path buf =
      if secure_execution_mode env
      then some buf
      else cat bufsiz buf (getld_library_path path_max env)

  -- (1)
  unfoldable pub add_rpath : Bytes → Bytes → Option Bytes
  add_rpath runpath buf =
      if is_nil runpath then on_some (felf_rpath order f) (λ tmp. cat bufsiz buf tmp) else some buf

  -- __fld_lib_path(fd, buf, bufsiz, offset), where bufsiz is what is left of the buffer
  unfoldable pub fld_lib_path : Option Bytes
  fld_lib_path = on_some (felf_flags_1 order f) λ flags_1. on_some (add_deflib flags_1) λ buf.
      on_some (felf_runpath order f) λ runpath.
        on_some (add_runpath runpath buf)
          λ buf2. on_some (add_ld_library_path buf2) λ buf3. add_rpath runpath buf3

-- __ld_lib_path(path, buf, bufsiz, offset), where `open` is next_open(path, O_RDONLY | O_CLOEXEC, 0)
unfoldable pub ld_lib_path : Order → Option Bytes → List Bytes → ℕ → Reply File → Option Bytes
ld_lib_path order deflib env bufsiz (reply f) = fld_lib_path order deflib env f bufsiz
ld_lib_path order deflib env bufsiz (refuse e) = none

-- __ldso_library_path_callback for each path name of the list
unfoldable pub each_library_path : Bytes → ℕ → List Bytes → Bytes → Option Bytes
each_library_path root bufsiz [] buf = some buf
each_library_path root bufsiz (path ∷ paths) buf =
    if ltb (length (root ++ path)) path_max
    then on_some (cat bufsiz buf (root ++ path)) (λ b. each_library_path root bufsiz paths b)
    else none

-- __ld_library_path(path, buf, bufsiz, offset), where root is __getrootdir()
unfoldable pub ld_library_path :
    Order → Option Bytes → List Bytes → Bytes → ℕ → Reply File → Option Bytes
ld_library_path order deflib env root bufsiz opened =
    on_some (ld_lib_path order deflib env path_max opened)
      λ lib_path. each_library_path root bufsiz (strtok colon lib_path) []

-- if (ret == -1 && errno != ENOENT) return -1; if (ret > 0) return ret;
unfoldable pub or_next : Ran Bytes → (Proc → Ran Bytes) → Ran Bytes
or_next (back (some buf) p) next = if is_nil buf then next p else back (some buf) p
or_next (back none p) next = if p.errno == enoent then next p else back none p
or_next crashed next = crashed
or_next stuck next = stuck

-- __path_access(path, mode, ..., buf, bufsiz) and __ldso_cache(path, buf, bufsiz)
module _ (access : Option Bytes → Proc → Ran Bytes) (cache : Proc → Ran Bytes) (env : List Bytes)
    (path : Bytes) where
  -- (4), (5) and the end
  unfoldable pub in_deflib : ℕ → Option Bytes → Proc → Ran Bytes
  in_deflib flags_1 none p = back none (record p { errno = enoent })
  in_deflib flags_1 (some deflib) p =
      if has_bit nodeflib_bit flags_1
      then back none (record p { errno = enoent })
      else or_next (access (some deflib) p) λ q. back none (record q { errno = enoent })

  unfoldable pub in_cache : ℕ → Option Bytes → Proc → Ran Bytes
  in_cache flags_1 deflib p = or_next (cache p) λ q. in_deflib flags_1 deflib q

  -- (3)
  unfoldable pub in_runpath : Option Bytes → ℕ → Option Bytes → Proc → Ran Bytes
  in_runpath none flags_1 deflib p = in_cache flags_1 deflib p
  in_runpath (some runpath) flags_1 deflib p =
      or_next (access (some runpath) p) λ q. in_cache flags_1 deflib q

  -- (2)
  unfoldable pub in_library_path : Option Bytes → Option Bytes → ℕ → Option Bytes → Proc → Ran Bytes
  in_library_path none runpath flags_1 deflib p = in_runpath runpath flags_1 deflib p
  in_library_path (some ld_library_path) runpath flags_1 deflib p =
      if secure_execution_mode env
      then in_runpath runpath flags_1 deflib p
      else or_next (access (some ld_library_path) p) λ q. in_runpath runpath flags_1 deflib q

  -- (1)
  unfoldable pub in_rpath :
      Option Bytes
      → Option Bytes
      → Option Bytes
      → Option Bytes
      → ℕ
      → Option Bytes
      → Proc
      → Ran Bytes
  in_rpath exec_rpath rpath ld_library_path (some runpath) flags_1 deflib p =
      in_library_path ld_library_path (some runpath) flags_1 deflib p
  in_rpath exec_rpath rpath ld_library_path none flags_1 deflib p =
      or_next (access rpath p) λ q.
        or_next (access exec_rpath q) λ r. in_library_path ld_library_path none flags_1 deflib r

  -- __ldso_access(path, ..., buf, bufsiz), which does not look at exec_runpath
  unfoldable pub ldso_access :
      ℕ
      → Option Bytes
      → Option Bytes
      → Option Bytes
      → Option Bytes
      → ℕ
      → Option Bytes
      → Proc
      → Ran Bytes
  ldso_access bufsiz exec_rpath rpath ld_library_path runpath flags_1 deflib p =
      if has_slash path
      then back (some (strncpy path bufsiz)) p
      else in_rpath exec_rpath rpath ld_library_path runpath flags_1 deflib p
