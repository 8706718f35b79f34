-- ===== src/Calls/Mode.antt =====
-- chmod.c, fchmod.c, fchmodat.c, creat.c, mkdirat.c, mkdir.c, open.c, openat.c, mknodat.c, mknod.c,
-- lchmod.c, mkfifoat.c and mkfifo.c (`open` is `open_path` here): the mode that is asked for is
-- recorded, and the host gets one that the user can use.
pub mod Granted
use iamroot.Base.{ℕ, ◌∷◌, Bool, not, Option, none, some, if◌then◌else◌, ◌==◌, ◌||◌}
use iamroot.Base.Bytes.{Bytes}
use iamroot.Base.Bits.{bit_and, bit_or, bit_clear}
use iamroot.Path.Resolution.{Dirfd, cwd, AtFlags, at_none, at_nofollow, pr_none}
use iamroot.Calls.{
  Host, Proc, Ran, back, next_chmod, next_fchmod, next_fchmodat, next_creat, next_mkdirat,
  next_open, next_openat, next_lchmod, next_mkfifoat, next_close, mode_attribute, ignore_eperm,
  finally, on_success, set_attribute, resolve2, resolve_fd, call,
}

abbrev pub s_isuid : ℕ
s_isuid = 2048

abbrev pub s_isgid : ℕ
s_isgid = 1024

-- __warn_and_set_user_mode(path, mode, user_mode)
unfoldable pub set_user_mode : ℕ → ℕ → ℕ
set_user_mode user_mode mode =
    let granted = if bit_and mode user_mode == user_mode then mode else bit_or mode user_mode in
    let without = if bit_and granted s_isuid == 0 then granted else bit_clear granted s_isuid in
    if bit_and without s_isgid == 0 then without else bit_clear without s_isgid

abbrev pub user_mode_of : Bool → ℕ
user_mode_of is_directory = if is_directory then 448 else 384

-- O_CREAT and O_TMPFILE of Linux, and the access flag O_NOFOLLOW
abbrev pub o_creat : ℕ
o_creat = 64

abbrev pub o_tmpfile : ℕ
o_tmpfile = 4259840

abbrev pub o_nofollow : ℕ
o_nofollow = 131072

-- O_CREAT|O_WRONLY|O_TRUNC
abbrev pub o_new : ℕ
o_new = 577

unfoldable pub has_create_flag : ℕ → Bool
has_create_flag oflags = not (bit_and oflags o_creat == 0)

-- __needs_mode(oflags): O_TMPFILE has the bit of O_DIRECTORY, which is enough here.
unfoldable pub needs_mode : ℕ → Bool
needs_mode oflags = has_create_flag oflags || not (bit_and oflags o_tmpfile == 0)

abbrev pub open_atflags : ℕ → AtFlags
open_atflags oflags = if bit_and oflags o_nofollow == 0 then at_none else at_nofollow

-- __close(fd): its result is not looked at.
unfoldable pub closed : ℕ → Proc → Ran ℕ
closed fd p = back (some 0) (record p { log = next_close fd ∷ p.log })

module _ (h : Host) where
  -- __warn_if_insuffisant_user_mode(path, mode): the mode that the host gets
  unfoldable pub user_mode : Proc → Bytes → ℕ → ℕ
  user_mode p path mode = set_user_mode (user_mode_of (h.is_directory p.log path)) mode

  -- __fwarn_if_insuffisant_user_mode(fd, mode)
  unfoldable pub fuser_mode : Proc → Dirfd → ℕ → ℕ
  fuser_mode p dfd mode = set_user_mode (user_mode_of (h.fis_directory p.log dfd)) mode

  -- What open and openat do with the optional argument: the mode that is recorded.
  unfoldable pub asked_mode : ℕ → ℕ → ℕ
  asked_mode oflags arg = if needs_mode oflags then arg else 0

  -- The mode that open and openat pass on.
  unfoldable pub open_mode : Proc → Bytes → ℕ → ℕ → ℕ
  open_mode p buf oflags arg =
      let mode = asked_mode oflags arg in
      if has_create_flag oflags then user_mode p buf mode else mode

module _ (rounds : ℕ) (h : Host) where
  unfoldable pub chmod : Option Bytes → ℕ → Proc → Ran ℕ
  chmod path mode p = resolve2 rounds h p cwd path at_none pr_none λ buf.
      let granted = user_mode h p buf mode in
      finally (set_attribute mode_attribute buf mode granted)
        (ignore_eperm p.errno (call h p (next_chmod buf granted)))

  unfoldable pub fchmod : Dirfd → ℕ → Proc → Ran ℕ
  fchmod dfd mode p = resolve_fd rounds h p dfd λ buf.
      let granted = fuser_mode h p dfd mode in
      finally (set_attribute mode_attribute buf mode granted)
        (ignore_eperm p.errno (call h p (next_fchmod dfd granted)))

  unfoldable pub fchmodat : Dirfd → Option Bytes → ℕ → AtFlags → Proc → Ran ℕ
  fchmodat dfd path mode atflags p = resolve2 rounds h p dfd path atflags pr_none λ buf.
      let granted = user_mode h p buf mode in
      finally (set_attribute mode_attribute buf mode granted)
        (ignore_eperm p.errno (call h p (next_fchmodat dfd buf granted atflags)))

  unfoldable pub creat : Option Bytes → ℕ → Proc → Ran ℕ
  creat path mode p = resolve2 rounds h p cwd path at_none pr_none λ buf.
      let granted = user_mode h p buf mode in
      finally (set_attribute mode_attribute buf mode granted) (call h p (next_creat buf granted))

  unfoldable pub lchmod : Option Bytes → ℕ → Proc → Ran ℕ
  lchmod path mode p = resolve2 rounds h p cwd path at_nofollow pr_none λ buf.
      let granted = user_mode h p buf mode in
      finally (set_attribute mode_attribute buf mode granted)
        (ignore_eperm p.errno (call h p (next_lchmod buf granted)))

  unfoldable pub mkfifoat : Dirfd → Option Bytes → ℕ → Proc → Ran ℕ
  mkfifoat dfd path mode p = resolve2 rounds h p dfd path at_none pr_none λ buf.
      let granted = user_mode h p buf mode in
      finally (set_attribute mode_attribute buf mode granted)
        (call h p (next_mkfifoat dfd buf granted))

  unfoldable pub mkfifo : Option Bytes → ℕ → Proc → Ran ℕ
  mkfifo path mode p = mkfifoat cwd path mode p

  unfoldable pub mkdirat : Dirfd → Option Bytes → ℕ → Proc → Ran ℕ
  mkdirat dfd path mode p = resolve2 rounds h p dfd path at_none pr_none λ buf.
      let granted = user_mode h p buf mode in
      finally (set_attribute mode_attribute buf mode granted)
        (call h p (next_mkdirat dfd buf granted))

  unfoldable pub mkdir : Option Bytes → ℕ → Proc → Ran ℕ
  mkdir path mode p = mkdirat cwd path mode p

  unfoldable pub open_path : Option Bytes → ℕ → ℕ → Proc → Ran ℕ
  open_path path oflags arg p = resolve2 rounds h p cwd path (open_atflags oflags) pr_none λ buf.
      let mode = open_mode h p buf oflags arg in
      finally (set_attribute mode_attribute buf (asked_mode h oflags arg) mode)
        (call h p (next_open buf oflags mode))

  unfoldable pub openat : Dirfd → Option Bytes → ℕ → ℕ → Proc → Ran ℕ
  openat dfd path oflags arg p = resolve2 rounds h p dfd path (open_atflags oflags) pr_none λ buf.
      let mode = open_mode h p buf oflags arg in
      finally (set_attribute mode_attribute buf (asked_mode h oflags arg) mode)
        (call h p (next_openat dfd buf oflags mode))

  unfoldable pub mknodat : Dirfd → Option Bytes → ℕ → Proc → Ran ℕ
  mknodat dfd path mode p = on_success closed (openat dfd path o_new mode p)

  unfoldable pub mknod : Option Bytes → ℕ → Proc → Ran ℕ
  mknod path mode p = mknodat cwd path mode p
