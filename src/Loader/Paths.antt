-- ===== src/Loader/Paths.antt =====
-- dso.c: lists of path names that are joined by colons, by __path_strncat, __is_in_path,
-- __is_in_preload, __is_preloading_so, __setld_preload, __preload_so and __getld_library_path, with
-- __basename and __path_iterate of iamroot.c.
pub mod Joined
pub mod Tests
use iamroot.Base.{
  ℕ, suc, ◌+◌, ◌-◌, Bool, true, false, not, ◌&&◌, ◌||◌, List, [], ◌∷◌, ◌++◌, Option, none, some,
  ◌==◌, ltb, if◌then◌else◌, length, drop,
}
use iamroot.Base.Bytes.{Bytes, codes, slash, path_max, strncpy, streq, strncmp_eq}
use iamroot.Base.Errno.{Reply, reply, refuse, einval, enospc}
use iamroot.Path.Text.{is_nil}
use iamroot.Env.{getenv, setenv}
use iamroot.Identity.Groups.{strtok}

-- ':'
abbrev pub colon : ℕ
colon = 58

abbrev pub has_slash : Bytes → Bool
has_slash [] = false
has_slash (c ∷ s) = c == slash || has_slash s

-- __basename(path): what follows the last slash
unfoldable pub basename : Bytes → Bytes
basename [] = []
basename (c ∷ s) = let rest = basename s in if has_slash (c ∷ s) then rest else c ∷ s

-- __path_strncat(dst, src, dstsiz), of a string that the buffer holds
unfoldable pub path_strncat : Bytes → Bytes → ℕ → Reply Bytes
path_strncat dst src dstsiz =
    if ltb (dstsiz - length dst - 1) (length src + (if is_nil dst then 0 else 1))
    then refuse enospc
    else if not (is_nil dst) && not (is_nil src)
    then reply (dst ++ colon ∷ src)
    else reply (dst ++ src)

-- __is_in_path_callback for each path name of the list
unfoldable pub any_same : Bytes → List Bytes → Bool
any_same p [] = false
any_same p (path ∷ paths) = strncmp_eq path_max path p || any_same p paths

-- __is_in_path(pathname, path)
unfoldable pub is_in_path : Bytes → Bytes → Bool
is_in_path pathname path = any_same pathname (strtok colon path)

-- __is_in_preload_callback for each path name of the list
unfoldable pub any_same_base : Bytes → List Bytes → Bool
any_same_base p [] = false
any_same_base p (path ∷ paths) =
    strncmp_eq path_max (basename path) (basename p) || any_same_base p paths

-- __is_in_preload(path, preload)
unfoldable pub is_in_preload : Bytes → Bytes → Bool
is_in_preload path preload = any_same_base path (strtok colon preload)

abbrev pub or_preload : Bytes → Option Bytes → Bool
or_preload so none = false
or_preload so (some preload) = is_in_preload so preload

-- __is_preloading_so(so)
unfoldable pub is_preloading_so : Bytes → List Bytes → Bool
is_preloading_so so env = or_preload so (getenv (codes "LD_PRELOAD") env)

-- What follows _getenv("LD_PRELOAD")
unfoldable pub in_front : Bytes → Bool → Option Bytes → List Bytes → Reply (List Bytes)
in_front preload overwrite none env = setenv (codes "LD_PRELOAD") preload overwrite env
in_front preload overwrite (some curr) env =
    if ltb (length (preload ++ colon ∷ curr)) path_max
    then setenv (codes "LD_PRELOAD") (preload ++ colon ∷ curr) overwrite env
    else refuse enospc

-- __setld_preload(preload, overwrite)
unfoldable pub setld_preload : Bytes → Bool → List Bytes → Reply (List Bytes)
setld_preload preload overwrite env =
    if is_nil preload
    then refuse einval
    else in_front preload overwrite (getenv (codes "LD_PRELOAD") env) env

-- __preload_so(so): whether it was there already is not looked at for so itself.
unfoldable pub preload_so : Bytes → List Bytes → Reply (List Bytes)
preload_so so env =
    if is_preloading_so (codes "libiamroot.so") env then reply env else setld_preload so true env

-- strstr(s, t) of a text that begins with t, of one that has it further on, and of another
abbrev pub begins : Bytes → Bytes → Bool
begins s t = strncmp_eq (length t) s t

unfoldable pub contains : Bytes → Bytes → Bool
contains [] t = begins [] t
contains (c ∷ s) t = begins (c ∷ s) t || contains s t

-- What is left behind ld_library_path at the start of LD_LIBRARY_PATH
unfoldable pub behind : Bytes → Bytes → Bytes
behind curr prev = elim (drop (length prev) curr) [
  | [] ↦ []
  | c ∷ s ↦ if c == colon then s else c ∷ s
]

unfoldable pub touched : Bytes → Option Bytes → Bytes
touched curr none = curr
touched curr (some prev) =
    if streq curr prev
    then []
    else if not (contains curr prev)
    then curr
    else if begins curr prev
    then behind curr prev
    else curr

unfoldable pub library_path_of : List Bytes → Option Bytes → Bytes
library_path_of env none = []
library_path_of env (some curr) = touched curr (getenv (codes "ld_library_path") env)

-- __getld_library_path(buf, bufsiz, offset), where `room` is bufsiz-offset
unfoldable pub getld_library_path : ℕ → List Bytes → Bytes
getld_library_path room env =
    strncpy (library_path_of env (getenv (codes "LD_LIBRARY_PATH") env)) room
