-- ===== src/Calls/Search.antt =====
-- iamroot.c: __host_path_access and __path_access, which look for a file in the directories of a path.
pub mod First
pub mod Tests
use iamroot.Base.{
  ℕ, suc, ◌+◌, ◌-◌, Bool, true, false, ◌||◌, List, [], ◌∷◌, ◌++◌, Option, none, some, ◌==◌, ltb,
  leb, if◌then◌else◌, length, take,
}
use iamroot.Base.Bytes.{Bytes, slash, name_max, path_max, strnlen, strncpy}
use iamroot.Base.Errno.{enoent, eacces, enotdir, enametoolong}
use iamroot.Path.Text.{is_nil}
use iamroot.Path.Resolution.{Dirfd, cwd, at_nofollow, path_resolution}
use iamroot.Calls.{Host, Proc, Ran, back, crashed, stuck, next_faccessat, on_path, call}
use iamroot.Calls.Files.{faccessat}

-- ':'
abbrev pub colon : ℕ
colon = 58

-- A byte more in front of the first directory
unfoldable pub extend : ℕ → List Bytes → List Bytes
extend c [] = (c ∷ []) ∷ []
extend c (d ∷ ds) = (c ∷ d) ∷ ds

-- The directories p to z that the loop walks over, by z = __strchrnul(p, ':') and p = z + 1
unfoldable pub directories : Bytes → List Bytes
directories [] = [] ∷ []
directories (c ∷ path) =
    let rest = directories path in if c == colon then [] ∷ rest else extend c rest

-- b: the file in the directory
unfoldable pub candidate : Bytes → Bytes → Bytes
candidate file [] = file
candidate file (c ∷ d) = (c ∷ d) ++ slash ∷ file

-- The errors after which the loop goes on
unfoldable pub goes_on : ℕ → Bool
goes_on e = e == eacces || e == enoent || e == enotdir

-- The loop, with what asks for a file, what is done with the one that is found, and l
module _ (ask : Bytes → Proc → Ran ℕ) (hit : Bytes → Proc → Ran Bytes) (file : Bytes) (l : ℕ) where
  -- What follows the question for b
  unfoldable pub answered : (Bool → Proc → Ran Bytes) → Bytes → Bool → Ran ℕ → Ran Bytes
  answered rest b seen (back (some n) p) = hit b (record p { errno = 0 })
  answered rest b seen (back none p) =
      if goes_on p.errno then rest (seen || p.errno == eacces) p else back none p
  answered rest b seen crashed = crashed
  answered rest b seen stuck = stuck

  unfoldable pub search : List Bytes → Bool → Proc → Ran Bytes
  search [] seen p = back none (if seen then record p { errno = eacces } else p)
  search (d ∷ ds) seen p =
      let b = candidate file d in
      if leb l (length d) then search ds seen p else answered (search ds) b seen (ask b p)

-- The tests in front of the loop
unfoldable pub search_path :
    (Bytes → Proc → Ran ℕ) → (Bytes → Proc → Ran Bytes) → Bytes → Option Bytes → Proc → Ran Bytes
search_path ask hit file none p = back none (record p { errno = enoent })
search_path ask hit file (some path) p =
    if is_nil file
    then back none (record p { errno = enoent })
    else if ltb name_max (strnlen file (name_max + 1))
    then back none (record p { errno = enametoolong })
    else search ask hit file (strnlen path (path_max - 1) + 1) (directories path) false
        (record p { errno = enoent })

module _ (h : Host) where
  unfoldable pub ask_host : ℕ → Bytes → Proc → Ran ℕ
  ask_host mode b p = call h p (next_faccessat cwd b mode 0)

  -- _strncpy into the buffer of bufsiz-offset bytes from &buf[offset] on
  unfoldable pub copy_found : ℕ → Bytes → Proc → Ran Bytes
  copy_found bufsiz b p = back (some (strncpy b bufsiz)) p

  -- __host_path_access(file, mode, path, buf, bufsiz, offset)
  unfoldable pub host_path_access : Bytes → ℕ → Option Bytes → ℕ → Proc → Ran Bytes
  host_path_access file mode path bufsiz p =
      search_path (ask_host mode) (copy_found bufsiz) file path p

module _ (rounds : ℕ) (h : Host) where
  -- __faccessat(AT_FDCWD, b, mode, AT_SYMLINK_FOLLOW)
  unfoldable pub ask_iamroot : ℕ → Bytes → Proc → Ran ℕ
  ask_iamroot mode b p = faccessat rounds h cwd (some b) mode 0 p

  unfoldable pub resolve_found : ℕ → Bytes → Proc → Ran Bytes
  resolve_found bufsiz b p =
      on_path p (path_resolution rounds (h.fs p.log) p.env p.errno cwd (some b) bufsiz at_nofollow)
        λ buf. back (some buf) p

  -- __path_access(file, mode, path, buf, bufsiz)
  unfoldable pub path_access : Bytes → ℕ → Option Bytes → ℕ → Proc → Ran Bytes
  path_access file mode path bufsiz p =
      search_path (ask_iamroot mode) (resolve_found bufsiz) file path p
