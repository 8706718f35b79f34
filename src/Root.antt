-- ===== src/Root.antt =====
-- The root directory of iamroot.c: the environment variable IAMROOT_ROOT, here an `Option`, and the
-- functions that put path names below it or take them out of it.
use iamroot.Base.{ℕ, Bool, not, [], ◌∷◌, Option, none, some, if◌then◌else◌, drop, length}
use iamroot.Base.Bytes.{Bytes, codes, path_max, strnlen, strncpy, streq, strleq, strncmp_eq}

-- __getrootdir()
unfoldable pub getrootdir : Option Bytes → Bytes
getrootdir none = codes "/"
getrootdir (some root) = root

-- __inchroot()
unfoldable pub inchroot : Option Bytes → Bool
unfolding getrootdir streq
inchroot env = not (streq (getrootdir env) (codes "/"))

-- __setrootdir(path): NULL unsets the variable.
unfoldable pub setrootdir : Option Bytes → Option Bytes
setrootdir path = path

-- __chrootdir(cwd): a directory whose name does not begin with the root directory's ends the chroot.
unfoldable pub chrootdir : Option Bytes → Bytes → Option Bytes
unfolding getrootdir strleq setrootdir
chrootdir env cwd = if strleq cwd (getrootdir env) then env else setrootdir none

-- An empty path name is /, behind the root directory.
or_top : Bytes → Bytes
or_top [] = codes "/"
or_top (c ∷ s) = c ∷ s

-- __skiprootdir(path); `none` is the result NULL.
unfoldable pub skiprootdir : Option Bytes → Option Bytes → Option Bytes
unfolding or_top
skiprootdir env none = none
skiprootdir env (some []) = none
skiprootdir env (some (c ∷ s)) =
    let root = getrootdir env in
    let len = strnlen root path_max in
    if streq root (codes "/")
    then some (c ∷ s)
    else if strncmp_eq len root (c ∷ s)
    then some (or_top (drop len (c ∷ s)))
    else some (c ∷ s)

-- _strncpy(ret, "/", size) over a path name of that size that has become empty
unfoldable pub or_top_within : ℕ → Bytes → Bytes
or_top_within size [] = strncpy (codes "/") size
or_top_within size (c ∷ s) = c ∷ s

-- __striprootdir(path): the buffer afterwards. An empty path name is left alone (the result is NULL).
unfoldable pub striprootdir : Option Bytes → Bytes → Bytes
unfolding or_top_within
striprootdir env path =
    let root = getrootdir env in
    let len = strnlen root path_max in
    if streq root (codes "/")
    then path
    else if strncmp_eq len root path
    then or_top_within (length path) (drop len path)
    else path
