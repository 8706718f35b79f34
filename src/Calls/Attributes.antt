-- ===== src/Calls/Attributes.antt =====
-- getxattr.c, lgetxattr.c, setxattr.c, lsetxattr.c, removexattr.c,
-- lremovexattr.c, fgetxattr.c, fsetxattr.c and fremovexattr.c: the name of every attribute gets the
-- prefix user.iamroot., unless it has it.
pub mod Listed
use iamroot.Base.{ℕ, Option, none, some, ◌++◌, ltb, length, if◌then◌else◌}
use iamroot.Base.Bytes.{Bytes, codes, strneq}
use iamroot.Base.Errno.{enospc}
use iamroot.Path.Resolution.{Dirfd, cwd, at_none, at_nofollow, pr_none, pr_nowalkalong}
use iamroot.Calls.{
  Host, Proc, Ran, back, next_getxattr, next_lgetxattr, next_setxattr, next_lsetxattr,
  next_removexattr, next_lremovexattr, next_fgetxattr, next_fsetxattr, next_fremovexattr, resolve2,
  resolve_fd, call,
}

-- IAMROOT_XATTRS_PREFIX
abbrev pub xattrs_prefix : Bytes
xattrs_prefix = codes "user.iamroot."

-- XATTR_NAME_MAX + 1 and XATTR_LIST_MAX + 1
abbrev pub xattr_name_room : ℕ
xattr_name_room = 256

abbrev pub xattr_list_room : ℕ
xattr_list_room = 65537

-- The name that goes on, if xbuf of that size takes it.
unfoldable pub prefixed : ℕ → Bytes → Option Bytes
prefixed room name =
    if strneq name xattrs_prefix
    then some name
    else if ltb (length (xattrs_prefix ++ name)) room
    then some (xattrs_prefix ++ name)
    else none

-- What follows `_snprintf(xbuf, ...)`: n is -1 where the text does not fit.
unfoldable pub on_name {ℓ} : {A : Type ℓ} → Proc → Option Bytes → (Bytes → Ran A) → Ran A
on_name p none k = back none (record p { errno = enospc })
on_name p (some name) k = k name

module _ (rounds : ℕ) (h : Host) where
  -- The buffer of the value belongs to the caller.
  unfoldable pub getxattr : Option Bytes → Bytes → Proc → Ran ℕ
  getxattr path name p =
      resolve2 rounds h p cwd path at_none pr_none
        λ buf. on_name p (prefixed xattr_name_room name) λ xname. call h p (next_getxattr buf xname)

  unfoldable pub lgetxattr : Option Bytes → Bytes → Proc → Ran ℕ
  lgetxattr path name p =
      resolve2 rounds h p cwd path at_nofollow pr_nowalkalong λ buf.
        on_name p (prefixed xattr_list_room name) λ xname. call h p (next_lgetxattr buf xname)

  unfoldable pub setxattr : Option Bytes → Bytes → Bytes → ℕ → Proc → Ran ℕ
  setxattr path name value flags p = resolve2 rounds h p cwd path at_none pr_none λ buf.
      on_name p (prefixed xattr_name_room name)
        λ xname. call h p (next_setxattr buf xname value flags)

  unfoldable pub lsetxattr : Option Bytes → Bytes → Bytes → ℕ → Proc → Ran ℕ
  lsetxattr path name value flags p = resolve2 rounds h p cwd path at_nofollow pr_nowalkalong λ buf.
      on_name p (prefixed xattr_list_room name)
        λ xname. call h p (next_lsetxattr buf xname value flags)

  unfoldable pub removexattr : Option Bytes → Bytes → Proc → Ran ℕ
  removexattr path name p = resolve2 rounds h p cwd path at_none pr_none λ buf.
      on_name p (prefixed xattr_name_room name) λ xname. call h p (next_removexattr buf xname)

  unfoldable pub lremovexattr : Option Bytes → Bytes → Proc → Ran ℕ
  lremovexattr path name p = resolve2 rounds h p cwd path at_nofollow pr_nowalkalong λ buf.
      on_name p (prefixed xattr_list_room name) λ xname. call h p (next_lremovexattr buf xname)

  unfoldable pub fgetxattr : Dirfd → Bytes → Proc → Ran ℕ
  fgetxattr dfd name p =
      resolve_fd rounds h p dfd λ buf.
        on_name p (prefixed xattr_name_room name) λ xname. call h p (next_fgetxattr dfd xname)

  unfoldable pub fsetxattr : Dirfd → Bytes → Bytes → ℕ → Proc → Ran ℕ
  fsetxattr dfd name value flags p = resolve_fd rounds h p dfd λ buf.
      on_name p (prefixed xattr_name_room name)
        λ xname. call h p (next_fsetxattr dfd xname value flags)

  unfoldable pub fremovexattr : Dirfd → Bytes → Proc → Ran ℕ
  fremovexattr dfd name p = resolve_fd rounds h p dfd λ buf.
      on_name p (prefixed xattr_name_room name) λ xname. call h p (next_fremovexattr dfd xname)
