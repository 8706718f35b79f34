-- ===== src/Path/Resolution/Bounds.antt =====
-- What `path_resolution2` leaves in the caller's buffer fits it.
use iamroot.Base.{
  ℕ, ◌-◌, ◌<◌, ◌≡◌, Bool, true, false, not, [], ◌∷◌, ◌++◌, Option, none, some, length, drop,
  length-drop, length-take-le, arith,
}
use iamroot.Base.Bytes.{Bytes, codes, slash, path_max, strnlen, strncpy}
use iamroot.Path.Fs.{Fs}
use iamroot.Path.Sanitize.{path_sanitize}
use iamroot.Path.Sanitize.Laws.{length-path_sanitize-le}
use iamroot.Path.Realpath.{Outcome, ok, fail, overrun, out_of_fuel}
use iamroot.Root.{getrootdir, striprootdir, or_top_within}
use iamroot.Path.Resolution.{
  Dirfd, cwd, fd, negative, AtFlags, follow_symlink, PrFlags, ◌>>=◌, fpath, copy_as_is, print_path,
  root_prefix, strip_prefix, Prefixed, touched, returned, below_dirfd, relative_to, add_prefix,
  after_realpath, try_realpath, keep_below, strip_ignored, follow_links, on_prefixed,
  path_resolution2,
}

-- An `ok` result has the property; there may be another result.
abbrev Gives {ℓ} : {A : Type ℓ} → (A → Type 0) → Outcome A → Type 0
Gives P (ok a) = P a
Gives P _ = Unit

Gives-bind {ℓ κ} :
    {A : Type ℓ} {B : Type κ} (P : A → Type 0) (Q : B → Type 0) (r : Outcome A) (f : A → Outcome B)
    → Gives P r
    → ((a : A) → P a → Gives Q (f a))
    → Gives Q (r >>= f)
Gives-bind P Q (ok a) f h k = k a h
Gives-bind P Q (fail e) f h k = tt
Gives-bind P Q overrun f h k = tt
Gives-bind P Q out_of_fuel f h k = tt

Gives-any {ℓ} : {A : Type ℓ} (r : Outcome A) → Gives (λ _. Unit) r
Gives-any (ok a) = tt
Gives-any (fail e) = tt
Gives-any overrun = tt
Gives-any out_of_fuel = tt

Gives-ok {ℓ} : {A : Type ℓ} (P : A → Type 0) (r : Outcome A) {a : A} → Gives P r → r ≡ ok a → P a
Gives-ok P (ok a) h e = ground (arith, h)
Gives-ok P (fail n) h e = cc
Gives-ok P overrun h e = cc
Gives-ok P out_of_fuel h e = cc

module _ (bufsiz : ℕ) (some_room : 0 < bufsiz) where
  abbrev Fits : Bytes → Type 0
  Fits s = length s < bufsiz

  abbrev FitsPrefixed : Prefixed → Type 0
  FitsPrefixed (touched buf b) = Fits buf
  FitsPrefixed (returned buf) = Fits buf

  strncpy-Fits : (s : Bytes) → Fits (strncpy s bufsiz)
  strncpy-Fits s = omega (arith, length-take-le (bufsiz - 1) s)

  copy_as_is-Fits : (s : Bytes) → Gives Fits (copy_as_is s bufsiz)
  unfolding copy_as_is
  copy_as_is-Fits s = ground (arith, strncpy-Fits s)

  print_path-Fits : (s : Bytes) → Gives Fits (print_path s bufsiz)
  unfolding print_path
  print_path-Fits s = ground arith

  below_dirfd-Fits :
      (root path dirbuf : Bytes) → Gives FitsPrefixed (below_dirfd root path dirbuf bufsiz)
  unfolding below_dirfd
  below_dirfd-Fits root path dirbuf =
      ground (arith, print_path-Fits (dirbuf ++ slash ∷ path), copy_as_is-Fits path)

  relative_to-Fits :
      (fs : Fs) (root : Bytes) (dfd : Dirfd) (path : Bytes)
      → Gives FitsPrefixed (relative_to fs root dfd path bufsiz)
  unfolding relative_to
  relative_to-Fits fs root cwd path = strncpy-Fits path
  relative_to-Fits fs root (fd n) path =
      Gives-bind (λ _. Unit) FitsPrefixed (fpath fs (fd n) path_max)
        (λ d. below_dirfd root path d bufsiz) (Gives-any _)
        λ dirbuf _. below_dirfd-Fits root path dirbuf
  relative_to-Fits fs root negative path =
      Gives-bind (λ _. Unit) FitsPrefixed (fpath fs negative path_max)
        (λ d. below_dirfd root path d bufsiz) (Gives-any _)
        λ dirbuf _. below_dirfd-Fits root path dirbuf

  add_prefix-Fits :
      (fs : Fs) (root : Bytes) (dfd : Dirfd) (path : Bytes)
      → Gives FitsPrefixed (add_prefix fs root dfd path bufsiz)
  unfolding add_prefix
  add_prefix-Fits fs root dfd path =
      ground
        (arith, print_path-Fits (root ++ strip_prefix root path), relative_to-Fits fs root dfd path)

  or_top_within-Fits :
      (n : ℕ) (t : Bytes) → length t < bufsiz → n < bufsiz → Fits (or_top_within n t)
  unfolding or_top_within
  or_top_within-Fits n [] h k = omega (arith, length-take-le (n - 1) (codes "/"))
  or_top_within-Fits n (c ∷ t) h k = h

  striprootdir-Fits : (env : Option Bytes) (s : Bytes) → Fits s → Fits (striprootdir env s)
  unfolding striprootdir
  striprootdir-Fits env s h =
      let t = drop (strnlen (getrootdir env) path_max) s in
      ground (
        arith,
        length-drop (strnlen (getrootdir env) path_max) s,
        or_top_within-Fits (length s) (drop (strnlen (getrootdir env) path_max) s),
      )

  module _ (rounds : ℕ) (fs : Fs) (env : Option Bytes) (follow : Bool) where
    abbrev FitsPair : Bytes × ℕ → Type 0
    FitsPair p = Fits p.0

    after_realpath-Fits :
        (buf : Bytes) (errno : ℕ) (r : Outcome Bytes)
        → Fits buf
        → Gives FitsPair (after_realpath buf errno bufsiz r)
    unfolding after_realpath
    after_realpath-Fits buf errno (ok tmp) h = strncpy-Fits tmp
    after_realpath-Fits buf errno (fail e) h = h
    after_realpath-Fits buf errno overrun h = tt
    after_realpath-Fits buf errno out_of_fuel h = tt

    try_realpath-Fits :
        (wanted : Bool) (buf : Bytes) (errno : ℕ)
        → Fits buf
        → Gives FitsPair (try_realpath rounds fs env follow bufsiz wanted buf errno)
    unfolding try_realpath
    try_realpath-Fits true buf errno h = after_realpath-Fits buf errno _ h
    try_realpath-Fits false buf errno h = h

    strip_ignored-Fits :
        (root : Bytes) (b : Bool) (buf : Bytes)
        → Fits buf
        → Fits (strip_ignored rounds fs env follow bufsiz root b buf)
    unfolding strip_ignored
    strip_ignored-Fits root b buf h = ground (arith, striprootdir-Fits env buf h)

    keep_below-Fits :
        (root : Bytes) (b : Bool) (buf : Bytes)
        → Fits buf
        → Fits (keep_below rounds fs env follow bufsiz root b buf)
    unfolding keep_below
    keep_below-Fits root b buf h = ground (arith, strncpy-Fits root)

    follow_links-Fits :
        (root : Bytes) (prflags : PrFlags) (buf : Bytes) (b : Bool) (errno : ℕ)
        → Fits buf
        → Gives Fits (follow_links rounds fs env follow bufsiz root prflags buf b errno)
    unfolding follow_links
    follow_links-Fits root prflags buf b errno h =
        Gives-bind FitsPair Fits _ _
          (try_realpath-Fits follow (path_sanitize buf) errno
            (omega (arith, length-path_sanitize-le buf)))
          λ followed fits.
            Gives-bind FitsPair Fits _ _
              (try_realpath-Fits (not prflags.no_walk_along) _ followed.1 (
                strip_ignored-Fits root (not prflags.no_ignore) _
                  (keep_below-Fits root b followed.0 fits)))
              λ walked fit. fit

    on_prefixed-Fits :
        (root : Bytes) (prflags : PrFlags) (errno : ℕ) (p : Prefixed)
        → FitsPrefixed p
        → Gives Fits (on_prefixed rounds fs env follow bufsiz root prflags errno p)
    unfolding on_prefixed
    on_prefixed-Fits root prflags errno (touched buf b) h =
        follow_links-Fits root prflags buf b errno h
    on_prefixed-Fits root prflags errno (returned buf) h = h

  path_resolution2-Fits :
      (rounds : ℕ) (fs : Fs) (env : Option Bytes) (errno : ℕ) (dfd : Dirfd) (path : Option Bytes)
      (atflags : AtFlags) (prflags : PrFlags)
      → Gives Fits (path_resolution2 rounds fs env errno dfd path bufsiz atflags prflags)
  unfolding path_resolution2
  path_resolution2-Fits rounds fs env errno dfd none atflags prflags = tt
  path_resolution2-Fits rounds fs env errno dfd (some path) atflags prflags = ground (
    arith,
    copy_as_is-Fits (codes "/"),
    copy_as_is-Fits path,
    Gives-bind FitsPrefixed Fits (add_prefix fs (root_prefix env) dfd path bufsiz)
        (on_prefixed rounds fs env (follow_symlink atflags) bufsiz (root_prefix env) prflags errno)
        (add_prefix-Fits fs (root_prefix env) dfd path)
        (on_prefixed-Fits rounds fs env (follow_symlink atflags) (root_prefix env) prflags errno),
  )

-- Whatever the path name, the flags, the root directory and the host, the path name that
-- path_resolution2 leaves in a buffer of bufsiz bytes is shorter than bufsiz.
pub path_resolution2-fits :
    (rounds : ℕ) (fs : Fs) (env : Option Bytes) (errno : ℕ) (dfd : Dirfd) (path : Option Bytes)
    (bufsiz : ℕ) (atflags : AtFlags) (prflags : PrFlags) (out : Bytes)
    → 0 < bufsiz
    → path_resolution2 rounds fs env errno dfd path bufsiz atflags prflags ≡ ok out
    → length out < bufsiz
path_resolution2-fits rounds fs env errno dfd path bufsiz atflags prflags out some_room e =
    Gives-ok (λ s. length s < bufsiz) _
      (path_resolution2-Fits bufsiz some_room rounds fs env errno dfd path atflags prflags) e
