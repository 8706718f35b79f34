-- ===== src/Path/Resolution/Errors.antt =====
-- The errors of `path_resolution2`.
use iamroot.Base.{
  ℕ, ◌≡◌, refl, subst, Bool, not, ◌&&◌, ◌∷◌, ◌++◌, ◌⊎◌, inl, inr, Option, none, some, ltb, leb,
  ◌==◌, if_intro, length,
}
use iamroot.Base.Bytes.{Bytes, codes, slash, path_max, strnlen, strncpy, streq, strneq}
use iamroot.Base.Errno.{Reply, reply, refuse, einval, enametoolong}
use iamroot.Path.Fs.{Fs}
use iamroot.Path.Text.{is_slash}
use iamroot.Path.Realpath.{Outcome, ok, fail, overrun, out_of_fuel, realpathat}
use iamroot.Root.{getrootdir}
use iamroot.Path.Resolution.{
  Dirfd, cwd, fd, negative, AtFlags, follow_symlink, PrFlags, ◌>>=◌, fpath, on_fd_link, copy_as_is,
  print_path, root_prefix, strip_prefix, Prefixed, touched, returned, below_dirfd, relative_to,
  add_prefix, after_realpath, try_realpath, follow_links, on_prefixed, path_resolution2,
}

module _ (fs : Fs) where
  -- EINVAL, ENAMETOOLONG, or what readlink("/proc/self/fd/<n>") gives
  abbrev pub Documented : ℕ → Type 0
  Documented e = (e ≡ einval) ⊎ (e ≡ enametoolong) ⊎ ((n : ℕ) × (fs.fd_link n ≡ refuse e))

  abbrev Fails {ℓ} : {A : Type ℓ} → Outcome A → Type 0
  Fails (fail e) = Documented e
  Fails _ = Unit

  Fails-bind {ℓ κ} :
      {A : Type ℓ} {B : Type κ} (r : Outcome A) (f : A → Outcome B)
      → Fails r
      → ((a : A) → Fails (f a))
      → Fails (r >>= f)
  Fails-bind (ok a) f h k = k a
  Fails-bind (fail e) f h k = h
  Fails-bind overrun f h k = tt
  Fails-bind out_of_fuel f h k = tt

  copy_as_is-Fails : (path : Bytes) (bufsiz : ℕ) → Fails (copy_as_is path bufsiz)
  unfolding copy_as_is
  copy_as_is-Fails path bufsiz =
      if_intro Fails (length (strncpy path bufsiz) == strnlen path path_max)
        (ok (strncpy path bufsiz)) (fail enametoolong) (λ x. tt) (λ x. inr (inl refl))

  print_path-Fails : (text : Bytes) (bufsiz : ℕ) → Fails (print_path text bufsiz)
  unfolding print_path
  print_path-Fails text bufsiz =
      if_intro Fails (ltb (length text) bufsiz) (ok text) (fail enametoolong) (λ x. tt)
        (λ x. inr (inl refl))

  on_fd_link-Fails :
      (n bufsiz : ℕ) (r : Reply Bytes) → fs.fd_link n ≡ r → Fails (on_fd_link bufsiz r)
  unfolding on_fd_link
  on_fd_link-Fails n bufsiz (reply link) e =
      if_intro Fails (leb bufsiz (length link)) overrun (ok link) (λ x. tt) (λ x. tt)
  on_fd_link-Fails n bufsiz (refuse m) e = inr (inr (n, e))

  fpath-Fails : (dfd : Dirfd) (bufsiz : ℕ) → Fails (fpath fs dfd bufsiz)
  unfolding fpath
  fpath-Fails cwd bufsiz = tt
  fpath-Fails (fd n) bufsiz = on_fd_link-Fails n bufsiz (fs.fd_link n) refl
  fpath-Fails negative bufsiz = inl refl

  below_dirfd-Fails :
      (root path dirbuf : Bytes) (bufsiz : ℕ) → Fails (below_dirfd root path dirbuf bufsiz)
  unfolding below_dirfd
  below_dirfd-Fails root path dirbuf bufsiz =
      if_intro Fails (is_slash dirbuf) _ _
        (λ x.
          Fails-bind (print_path (dirbuf ++ slash ∷ path) bufsiz) _ (print_path-Fails _ bufsiz)
            (λ b. tt))
        (λ x. Fails-bind (copy_as_is path bufsiz) _ (copy_as_is-Fails path bufsiz) (λ b. tt))

  relative_to-Fails :
      (root path : Bytes) (dfd : Dirfd) (bufsiz : ℕ) → Fails (relative_to fs root dfd path bufsiz)
  unfolding relative_to
  relative_to-Fails root path cwd bufsiz = tt
  relative_to-Fails root path (fd n) bufsiz =
      Fails-bind (fpath fs (fd n) path_max) _ (fpath-Fails (fd n) path_max)
        (λ d. below_dirfd-Fails root path d bufsiz)
  relative_to-Fails root path negative bufsiz =
      Fails-bind (fpath fs negative path_max) _ (fpath-Fails negative path_max)
        (λ d. below_dirfd-Fails root path d bufsiz)

  add_prefix-Fails :
      (root path : Bytes) (dfd : Dirfd) (bufsiz : ℕ) → Fails (add_prefix fs root dfd path bufsiz)
  unfolding add_prefix
  add_prefix-Fails root path dfd bufsiz =
      if_intro Fails (is_slash path) _ _
        (λ x.
          Fails-bind (print_path (root ++ strip_prefix root path) bufsiz) _
            (print_path-Fails _ bufsiz) (λ b. tt))
        (λ x. relative_to-Fails root path dfd bufsiz)

  after_realpath-Fails :
      (buf : Bytes) (errno bufsiz : ℕ) (r : Outcome Bytes)
      → Fails (after_realpath buf errno bufsiz r)
  unfolding after_realpath
  after_realpath-Fails buf errno bufsiz (ok s) = tt
  after_realpath-Fails buf errno bufsiz (fail e) = tt
  after_realpath-Fails buf errno bufsiz overrun = tt
  after_realpath-Fails buf errno bufsiz out_of_fuel = tt

  try_realpath-Fails :
      (rounds : ℕ) (env : Option Bytes) (follow : Bool) (bufsiz : ℕ) (wanted : Bool) (buf : Bytes)
      (errno : ℕ)
      → Fails (try_realpath rounds fs env follow bufsiz wanted buf errno)
  unfolding try_realpath
  try_realpath-Fails rounds env follow bufsiz wanted buf errno =
      if_intro Fails wanted _ (ok (buf, errno))
        (λ x.
          after_realpath-Fails buf errno bufsiz
            (realpathat rounds fs (getrootdir env) follow errno buf))
        (λ x. tt)

  on_prefixed-Fails :
      (rounds : ℕ) (env : Option Bytes) (follow : Bool) (bufsiz : ℕ) (root : Bytes)
      (prflags : PrFlags) (errno : ℕ) (r : Prefixed)
      → Fails (on_prefixed rounds fs env follow bufsiz root prflags errno r)
  unfolding on_prefixed follow_links
  on_prefixed-Fails rounds env follow bufsiz root prflags errno (touched buf b) =
      Fails-bind (try_realpath rounds fs env follow bufsiz follow _ errno) _
        (try_realpath-Fails rounds env follow bufsiz follow _ errno)
        λ r.
          Fails-bind (try_realpath rounds fs env follow bufsiz _ _ _) _
            (try_realpath-Fails rounds env follow bufsiz _ _ _) λ s. tt
  on_prefixed-Fails rounds env follow bufsiz root prflags errno (returned buf) = tt

  path_resolution2-Fails :
      (rounds : ℕ) (env : Option Bytes) (errno : ℕ) (dfd : Dirfd) (path : Option Bytes) (bufsiz : ℕ)
      (atflags : AtFlags) (prflags : PrFlags)
      → Fails (path_resolution2 rounds fs env errno dfd path bufsiz atflags prflags)
  unfolding path_resolution2
  path_resolution2-Fails rounds env errno dfd none bufsiz atflags prflags = inl refl
  path_resolution2-Fails rounds env errno dfd (some path) bufsiz atflags prflags =
      if_intro Fails (strnlen path path_max == path_max) (fail enametoolong) _ (λ x. inr (inl refl))
        λ x.
          if_intro Fails (not prflags.no_magic_links && streq path (codes "/proc/1/root")) _ _
            (λ y. copy_as_is-Fails (codes "/") bufsiz)
            λ y.
              if_intro Fails (not prflags.no_magic_links && strneq path (codes "/dev/fd/")) _ _
                (λ z. copy_as_is-Fails path bufsiz)
                λ z.
                  if_intro Fails (not prflags.no_ignore && fs.ignore path) _ _
                    (λ u. copy_as_is-Fails path bufsiz)
                    λ u.
                      Fails-bind (add_prefix fs (root_prefix env) dfd path bufsiz) _
                        (add_prefix-Fails (root_prefix env) path dfd bufsiz)
                        (on_prefixed-Fails rounds env (follow_symlink atflags) bufsiz
                          (root_prefix env) prflags errno)

-- Whatever links __realpathat fails on, path_resolution2 gives no error but EINVAL, ENAMETOOLONG and
-- the error with which the link of a descriptor cannot be read.
pub path_resolution2-errors :
    (rounds : ℕ) (fs : Fs) (env : Option Bytes) (errno : ℕ) (dfd : Dirfd) (path : Option Bytes)
    (bufsiz : ℕ) (atflags : AtFlags) (prflags : PrFlags) (e : ℕ)
    → path_resolution2 rounds fs env errno dfd path bufsiz atflags prflags ≡ fail e
    → (e ≡ einval) ⊎ (e ≡ enametoolong) ⊎ ((n : ℕ) × (fs.fd_link n ≡ refuse e))
path_resolution2-errors rounds fs env errno dfd path bufsiz atflags prflags e failed =
    subst (Fails fs) failed
      (path_resolution2-Fails fs rounds env errno dfd path bufsiz atflags prflags)

pub fpath-errors :
    (fs : Fs) (dfd : Dirfd) (bufsiz e : ℕ)
    → fpath fs dfd bufsiz ≡ fail e
    → (e ≡ einval) ⊎ (e ≡ enametoolong) ⊎ ((n : ℕ) × (fs.fd_link n ≡ refuse e))
fpath-errors fs dfd bufsiz e failed = subst (Fails fs) failed (fpath-Fails fs dfd bufsiz)
