-- ===== src/Path/Resolution.antt =====
-- `path_resolution2` of path_resolution.c, with `fpath` of iamroot.c, as they are built for Linux.
pub mod Confined
pub mod Tests
pub mod Bounds
pub mod Errors
use iamroot.Base.{
  ℕ, zero, suc, ◌+◌, ◌-◌, ◌≡◌, Bool, true, false, not, ◌&&◌, ◌||◌, [], ◌∷◌, ◌++◌, Option, none,
  some, ltb, leb, ◌==◌, if◌then◌else◌, length, take, drop,
}
use iamroot.Base.Bytes.{Bytes, codes, slash, path_max, strnlen, strncpy, streq, strleq, strneq}
use iamroot.Base.Errno.{Reply, reply, refuse, einval, enametoolong}
use iamroot.Path.Text.{is_slash, is_nil}
use iamroot.Path.Fs.{Fs}
use iamroot.Path.Sanitize.{path_sanitize}
use iamroot.Path.Realpath.{Outcome, ok, fail, overrun, out_of_fuel, realpathat}
use iamroot.Root.{getrootdir, striprootdir}

-- A directory descriptor: AT_FDCWD, an open descriptor, or another negative number.
pub data Dirfd : Type 0 where
  cwd : Dirfd
  fd : ℕ → Dirfd
  negative : Dirfd

-- The bits of `atflags` that path resolution reads, and the others.
pub record AtFlags : Type 0 where
  pub symlink_follow : Bool
  pub symlink_nofollow : Bool
  pub others : ℕ

abbrev pub at_none : AtFlags
at_none = record { symlink_follow = false; symlink_nofollow = false; others = 0 }

abbrev pub at_nofollow : AtFlags
at_nofollow = record { symlink_follow = false; symlink_nofollow = true; others = 0 }

-- follow_symlink(f): FOLLOW takes precedence over NOFOLLOW.
abbrev pub follow_symlink : AtFlags → Bool
follow_symlink f = f.symlink_follow || not f.symlink_nofollow

-- PATH_RESOLUTION_NOMAGICLINKS, _NOIGNORE and _NOWALKALONG
pub record PrFlags : Type 0 where
  pub no_magic_links : Bool
  pub no_ignore : Bool
  pub no_walk_along : Bool

abbrev pub pr_none : PrFlags
pr_none = record { no_magic_links = false; no_ignore = false; no_walk_along = false }

abbrev pub pr_nowalkalong : PrFlags
pr_nowalkalong = record { no_magic_links = false; no_ignore = false; no_walk_along = true }

-- What follows a step that gave a value.
infixl 5 ◌>>=◌
abbrev pub ◌>>=◌ {ℓ κ} : {A : Type ℓ} {B : Type κ} → Outcome A → (A → Outcome B) → Outcome B
ok a >>= f = f a
fail e >>= f = fail e
overrun >>= f = overrun
out_of_fuel >>= f = out_of_fuel

-- The link that __fgetpath reads, in a buffer of bufsiz bytes: fpath then writes the null byte
-- behind what was read, past the buffer if that is full.
on_fd_link : ℕ → Reply Bytes → Outcome Bytes
on_fd_link bufsiz (reply link) = if leb bufsiz (length link) then overrun else ok link
on_fd_link bufsiz (refuse e) = fail e

-- fpath(fd, buf, bufsiz)
unfoldable pub fpath : Fs → Dirfd → ℕ → Outcome Bytes
unfolding on_fd_link
fpath fs cwd bufsiz = ok (codes ".")
fpath fs (fd n) bufsiz = on_fd_link bufsiz (fs.fd_link n)
fpath fs negative bufsiz = fail einval

-- The path name is copied as is, if the buffer takes it.
unfoldable pub copy_as_is : Bytes → ℕ → Outcome Bytes
copy_as_is path bufsiz =
    let buf = strncpy path bufsiz in
    if length buf == strnlen path path_max then ok buf else fail enametoolong

-- _snprintf(buf, bufsiz, ...) of this text
unfoldable pub print_path : Bytes → ℕ → Outcome Bytes
print_path text bufsiz = if ltb (length text) bufsiz then ok text else fail enametoolong

-- The root directory as path_resolution2 has it: / is no prefix.
unfoldable pub root_prefix : Option Bytes → Bytes
root_prefix env = let root = getrootdir env in if streq root (codes "/") then [] else root

-- The path name without a root directory that it contains already.
unfoldable pub strip_prefix : Bytes → Bytes → Bytes
strip_prefix root path =
    if not (is_nil root) && strleq path root then drop (strnlen root path_max) path else path

-- After the three cases of the path name: a resolved buffer with is_atrootfd, or an early return.
pub data Prefixed : Type 0 where
  touched : Bytes → Bool → Prefixed
  returned : Bytes → Prefixed

unfoldable pub below_dirfd : Bytes → Bytes → Bytes → ℕ → Outcome Prefixed
below_dirfd root path dirbuf bufsiz =
    if is_slash dirbuf
    then print_path (dirbuf ++ slash ∷ path) bufsiz
      >>= (λ buf. ok (touched buf (streq root dirbuf)))
    else copy_as_is path bufsiz >>= (λ buf. ok (returned buf))

-- The case of a path name that is relative: to the descriptor, or to the working directory.
unfoldable pub relative_to : Fs → Bytes → Dirfd → Bytes → ℕ → Outcome Prefixed
relative_to fs root cwd path bufsiz = ok (touched (strncpy path bufsiz) false)
relative_to fs root (fd n) path bufsiz =
    fpath fs (fd n) path_max >>= (λ dirbuf. below_dirfd root path dirbuf bufsiz)
relative_to fs root negative path bufsiz =
    fpath fs negative path_max >>= (λ dirbuf. below_dirfd root path dirbuf bufsiz)

-- The root directory or the directory of the descriptor is put in front of the path name.
unfoldable pub add_prefix : Fs → Bytes → Dirfd → Bytes → ℕ → Outcome Prefixed
add_prefix fs root dfd path bufsiz =
    if is_slash path
    then print_path (root ++ strip_prefix root path) bufsiz >>= (λ buf. ok (touched buf false))
    else relative_to fs root dfd path bufsiz

-- `if (... && __realpathat(buf, tmp, atflags)) _strncpy(buf, tmp, bufsiz);`: the buffer and errno.
unfoldable pub after_realpath : Bytes → ℕ → ℕ → Outcome Bytes → Outcome (Bytes × ℕ)
after_realpath buf errno bufsiz (ok tmp) = ok (strncpy tmp bufsiz, errno)
after_realpath buf errno bufsiz (fail e) = ok (buf, e)
after_realpath buf errno bufsiz overrun = overrun
after_realpath buf errno bufsiz out_of_fuel = out_of_fuel

-- The sections of path_resolution2 that follow links, from `Sanitize the resolved path` to the end.
module _ (rounds : ℕ) (fs : Fs) (env : Option Bytes) (follow : Bool) (bufsiz : ℕ) where
  unfoldable pub try_realpath : Bool → Bytes → ℕ → Outcome (Bytes × ℕ)
  unfolding after_realpath
  try_realpath wanted buf errno =
      if wanted
      then after_realpath buf errno bufsiz (realpathat rounds fs (getrootdir env) follow errno buf)
      else ok (buf, errno)

  -- The directory fd is the root directory, and the path name has left it.
  unfoldable pub keep_below : Bytes → Bool → Bytes → Bytes
  keep_below root is_atrootfd buf =
      if not (is_nil root) && is_atrootfd && not (strleq buf root) then strncpy root bufsiz else buf

  -- What is to be ignored is stripped from the root directory.
  unfoldable pub strip_ignored : Bytes → Bool → Bytes → Bytes
  strip_ignored root allow_ignore buf =
      if strleq buf root && allow_ignore && fs.ignore (drop (strnlen root path_max) buf)
      then striprootdir env buf
      else buf

  unfoldable pub follow_links : Bytes → PrFlags → Bytes → Bool → ℕ → Outcome Bytes
  follow_links root prflags buf is_atrootfd errno =
      try_realpath follow (path_sanitize buf) errno >>= λ followed.
      try_realpath (not prflags.no_walk_along)
        (strip_ignored root (not prflags.no_ignore) (keep_below root is_atrootfd followed.0))
        followed.1
      >>= λ walked. ok walked.0

  unfoldable pub on_prefixed : Bytes → PrFlags → ℕ → Prefixed → Outcome Bytes
  on_prefixed root prflags errno (touched buf is_atrootfd) =
      follow_links root prflags buf is_atrootfd errno
  on_prefixed root prflags errno (returned buf) = ok buf

-- path_resolution2(dfd, path, buf, bufsiz, atflags, prflags): the buffer, whose length is returned,
-- or errno.
unfoldable pub path_resolution2 :
    ℕ → Fs → Option Bytes → ℕ → Dirfd → Option Bytes → ℕ → AtFlags → PrFlags → Outcome Bytes
path_resolution2 rounds fs env errno dfd none bufsiz atflags prflags = fail einval
path_resolution2 rounds fs env errno dfd (some path) bufsiz atflags prflags =
    if strnlen path path_max == path_max
    then fail enametoolong
    else if not prflags.no_magic_links && streq path (codes "/proc/1/root")
    then copy_as_is (codes "/") bufsiz
    else if not prflags.no_magic_links && strneq path (codes "/dev/fd/")
    then copy_as_is path bufsiz
    else if not prflags.no_ignore && fs.ignore path
    then copy_as_is path bufsiz
    else (add_prefix fs (root_prefix env) dfd path bufsiz
        >>= on_prefixed rounds fs env (follow_symlink atflags) bufsiz (root_prefix env) prflags
            errno)

-- path_resolution(dfd, path, buf, bufsiz, atflags)
abbrev pub path_resolution :
    ℕ → Fs → Option Bytes → ℕ → Dirfd → Option Bytes → ℕ → AtFlags → Outcome Bytes
path_resolution rounds fs env errno dfd path bufsiz atflags =
    path_resolution2 rounds fs env errno dfd path bufsiz atflags pr_none
