-- ===== src/Path/Resolution/Confined.antt =====
-- Where `path_resolution2` puts an absolute path name that it does not follow.
use iamroot.Base.{
  ℕ, ◌≤◌, ◌<◌, ◌≡◌, refl, ap, sym, append-nil, ◌∙◌, Bool, true, false, ◌||◌, [], ◌∷◌, ◌++◌, Option,
  some, length, drop, arith, length-append, drop-append,
}
use iamroot.Base.Bytes.{Bytes, codes, path_max, strnlen, streq, strleq, strneq, strncmp_eq-append}
use iamroot.Path.Text.{is_slash}
use iamroot.Path.Fs.{Fs}
use iamroot.Path.Sanitize.{path_sanitize}
use iamroot.Path.Sanitize.Below.{IsRoot, path_sanitize-below, path_sanitize-IsRoot}
use iamroot.Path.Realpath.{ok}
use iamroot.Root.{getrootdir}
use iamroot.Path.Resolution.{
  Dirfd, at_nofollow, pr_nowalkalong, print_path, root_prefix, strip_prefix, add_prefix,
  try_realpath, keep_below, strip_ignored, follow_links, on_prefixed, path_resolution2,
}

-- Neither the path name nor an initial part of it is to be left to the host.
abbrev pub IsHeeded : Fs → Bytes → Type 0
IsHeeded fs path = (rest back : Bytes) → path ≡ rest ++ back → fs.ignore rest ≡ false

-- The path names with a meaning of their own: /proc/1/root, and those below /dev/fd/.
abbrev pub is_magic : Bytes → Bool
is_magic path = streq path (codes "/proc/1/root") || strneq path (codes "/dev/fd/")

root_prefix-IsRoot : (root : Bytes) → IsRoot root → root_prefix (some root) ≡ root
unfolding root_prefix getrootdir streq
root_prefix-IsRoot [] h = refl
root_prefix-IsRoot (c ∷ []) h = absurd h.solid
root_prefix-IsRoot (c ∷ d ∷ root) h = ground arith

strip_ignored-none :
    (rounds : ℕ) (fs : Fs) (env : Option Bytes) (follow : Bool) (bufsiz : ℕ) (root : Bytes)
    (b : Bool) (buf : Bytes)
    → fs.ignore (drop (strnlen root path_max) buf) ≡ false
    → strip_ignored rounds fs env follow bufsiz root b buf ≡ buf
unfolding strip_ignored
strip_ignored-none rounds fs env follow bufsiz root b buf h = ground (arith, h)

drop-root : (root s : Bytes) → length root ≤ path_max → drop (strnlen root path_max) (root ++ s) ≡ s
drop-root root s h =
    let e : strnlen root path_max ≡ length root = omega arith in rw e (drop-append root s)

-- An absolute path name that is not followed is prefixed and sanitized.
resolve_absolute :
    (rounds : ℕ) (fs : Fs) (root : Bytes) (errno : ℕ) (dfd : Dirfd) (path : Bytes) (bufsiz : ℕ)
    → IsRoot root
    → fs.ignore path ≡ false
    → fs.ignore (drop (strnlen root path_max) (path_sanitize (root ++ strip_prefix root path)))
      ≡ false
    → is_slash path ≡ true
    → is_magic path ≡ false
    → length path < path_max
    → length (root ++ strip_prefix root path) < bufsiz
    → path_resolution2 rounds fs (some root) errno dfd (some path) bufsiz at_nofollow pr_nowalkalong
      ≡ ok (path_sanitize (root ++ strip_prefix root path))
unfolding path_resolution2 add_prefix on_prefixed follow_links try_realpath keep_below print_path
resolve_absolute rounds fs root errno dfd path bufsiz r heeded kept absolute plain short fits =
    ground (
      arith,
      root_prefix-IsRoot root r,
      heeded,
      strip_ignored-none rounds fs (some root) false bufsiz root true
          (path_sanitize (root ++ strip_prefix root path)) kept,
    )

strip_prefix-absent : (root path : Bytes) → strleq path root ≡ false → strip_prefix root path ≡ path
unfolding strip_prefix
strip_prefix-absent root path h = ground (arith, h)

strip_prefix-append :
    (root s : Bytes) → length (root ++ s) < path_max → strip_prefix root (root ++ s) ≡ s
unfolding strip_prefix strleq
strip_prefix-append [] s h = refl
strip_prefix-append (c ∷ root) s h =
    rw
      (
        strnlen-short (c ∷ root) (omega (arith, length-append root s)),
        strncmp_eq-append (c ∷ root) s,
      )
      (drop-append (c ∷ root) s)
  where
    strnlen-short : (r : Bytes) → length r ≤ path_max → strnlen r path_max ≡ length r
    strnlen-short r k = omega arith

-- With a root directory that is absolute, has from two to PATH_MAX bytes and does not end in a
-- slash or in /.: an absolute path name shorter than PATH_MAX that is not followed, as rmdir and
-- rename have it, that is not magic, of which no initial part is ignored, that does not begin with
-- the root directory, and that fits in the buffer with the root directory in front of it, resolves
-- to the root directory with an initial part of the path name behind it.
pub path_resolution2-below :
    (rounds : ℕ) (fs : Fs) (root : Bytes) (errno : ℕ) (dfd : Dirfd) (path : Bytes) (bufsiz : ℕ)
    → IsRoot root
    → IsHeeded fs path
    → is_slash path ≡ true
    → is_magic path ≡ false
    → strleq path root ≡ false
    → length root ≤ path_max
    → length path < path_max
    → length (root ++ path) < bufsiz
    → (rest : Bytes) × (back : Bytes) × (path_resolution2 rounds fs
          (some root)
          errno
          dfd
          (some path)
          bufsiz
          at_nofollow
          pr_nowalkalong
        ≡ ok (root ++ rest))
      × (path ≡ rest ++ back)
path_resolution2-below rounds fs root errno dfd path bufsiz r heeded absolute plain outside small
      short fits =
    let e : strip_prefix root path ≡ path = strip_prefix-absent root path outside in
    let (rest, back, sanitized, whole) = path_sanitize-below root path r in
    (
      rest,
      back,
      resolve_absolute rounds fs root errno dfd path bufsiz r
            (heeded path [] (sym (append-nil path)))
            (rw (e, sanitized, drop-root root rest small) (heeded rest back whole)) absolute plain
            short (rw e fits)
          ∙ ap (λ p. ok (path_sanitize (root ++ p))) e
          ∙ ap ok sanitized,
      whole,
    )

-- With a root directory that is absolute, has two bytes or more and does not end in a slash or in
-- /.: a path name of that form, shorter than PATH_MAX, that is not followed, as rmdir and rename
-- have it, that is not magic, and that begins with the bytes of the root directory, comes back as
-- it is, if it fits in the buffer and if neither it nor what is left behind the root directory is
-- ignored; the bytes behind the root directory need not begin with a slash.
pub path_resolution2-contained :
    (rounds : ℕ) (fs : Fs) (root s : Bytes) (errno : ℕ) (dfd : Dirfd) (bufsiz : ℕ)
    → IsRoot root
    → IsRoot (root ++ s)
    → fs.ignore (root ++ s) ≡ false
    → fs.ignore s ≡ false
    → is_magic (root ++ s) ≡ false
    → length (root ++ s) < path_max
    → length (root ++ s) < bufsiz
    → path_resolution2 rounds fs
        (some root)
        errno
        dfd
        (some (root ++ s))
        bufsiz
        at_nofollow
        pr_nowalkalong
      ≡ ok (root ++ s)
path_resolution2-contained rounds fs root s errno dfd bufsiz r rs heeded kept plain short fits =
    let e : strip_prefix root (root ++ s) ≡ s = strip_prefix-append root s short in
    let small : length root ≤ path_max = omega (arith, length-append root s) in
    resolve_absolute rounds fs root errno dfd (root ++ s) bufsiz r heeded
      (rw (e, path_sanitize-IsRoot (root ++ s) rs, drop-root root s small) kept) rs.absolute plain
      short (rw e fits)
    ∙ ap (λ p. ok (path_sanitize (root ++ p))) e
    ∙ ap ok (path_sanitize-IsRoot (root ++ s) rs)
