-- ===== src/Loader/Places/Short.antt =====
-- The length of the library path that __fld_lib_path of dso.c puts in a buffer.
use iamroot.Base.{
  ℕ, suc, ◌+◌, ◌-◌, ◌≤◌, List, [], ◌∷◌, Option, none, some, ltb, length, length-append, if_intro,
  arith,
}
use iamroot.Base.Bytes.{Bytes}
use iamroot.Base.Errno.{Reply, reply, refuse}
use iamroot.Base.Bits.{has_bit}
use iamroot.Path.Text.{is_nil}
use iamroot.Elf.{Order}
use iamroot.Elf.Interp.{File}
use iamroot.Loader.Paths.{colon, path_strncat, getld_library_path}
use iamroot.Base.Bytes.{path_max}
use iamroot.Loader.Places.{
  nodeflib_bit, on_some, felf_flags_1, felf_rpath, felf_runpath, secure_execution_mode, kept, cat,
  add_deflib, add_runpath, add_ld_library_path, add_rpath, fld_lib_path,
}

-- A list, if there is one, is within the buffer.
abbrev pub Within : ℕ → Option Bytes → Type 0
Within bufsiz none = Unit
Within bufsiz (some s) = length s ≤ bufsiz

abbrev Stays : ℕ → Reply Bytes → Type 0
Stays bufsiz (refuse e) = Unit
Stays bufsiz (reply s) = length s ≤ bufsiz

path_strncat-Stays :
    (buf tmp : Bytes) (bufsiz : ℕ)
    → length buf ≤ bufsiz
    → Stays bufsiz (path_strncat buf tmp bufsiz)
unfolding path_strncat
path_strncat-Stays [] tmp bufsiz h =
    if_intro (Stays bufsiz) (ltb (bufsiz - 0 - 1) (length tmp + 0)) _ _ (λ e. tt) λ e. ground arith
path_strncat-Stays (c ∷ buf) [] bufsiz h =
    if_intro (Stays bufsiz) (ltb (bufsiz - suc (length buf) - 1) (0 + 1)) _ _ (λ e. tt)
      λ e. omega (arith, length-append buf [])
path_strncat-Stays (c ∷ buf) (d ∷ tmp) bufsiz h =
    if_intro (Stays bufsiz) (ltb (bufsiz - suc (length buf) - 1) (suc (length tmp) + 1)) _ _
      (λ e. tt) λ e. (let n = length-append buf (colon ∷ d ∷ tmp) in ground arith)

kept-Within : (bufsiz : ℕ) (r : Reply Bytes) → Stays bufsiz r → Within bufsiz (kept r)
kept-Within bufsiz (reply s) h = h
kept-Within bufsiz (refuse e) h = h

cat-Within :
    (bufsiz : ℕ) (buf tmp : Bytes) → length buf ≤ bufsiz → Within bufsiz (cat bufsiz buf tmp)
unfolding cat
cat-Within bufsiz buf tmp h =
    kept-Within bufsiz (path_strncat buf tmp bufsiz) (path_strncat-Stays buf tmp bufsiz h)

-- What follows has a list within the buffer, or only a value.
on_some-Within :
    (bufsiz : ℕ) (o : Option Bytes) (k : Bytes → Option Bytes)
    → Within bufsiz o
    → ((s : Bytes) → length s ≤ bufsiz → Within bufsiz (k s))
    → Within bufsiz (on_some o k)
on_some-Within bufsiz none k h f = tt
on_some-Within bufsiz (some s) k h f = f s h

on_any-Within :
    {A : Type 0}
    → (bufsiz : ℕ) (o : Option A) (k : A → Option Bytes) → ((a : A) → Within bufsiz (k a))
    → Within bufsiz (on_some o k)
on_any-Within bufsiz none k f = tt
on_any-Within bufsiz (some a) k f = f a

module _ (order : Order) (deflib : Option Bytes) (env : List Bytes) (f : File) (bufsiz : ℕ) where
  add_deflib-Within : (flags_1 : ℕ) → Within bufsiz (add_deflib order deflib env f bufsiz flags_1)
  unfolding add_deflib
  add_deflib-Within flags_1 =
      if_intro (Within bufsiz) (has_bit nodeflib_bit flags_1) _ _ (λ e. omega arith)
        λ e. on_any-Within bufsiz deflib _ λ tmp. cat-Within bufsiz [] tmp (omega arith)

  add_runpath-Within :
      (runpath buf : Bytes)
      → length buf ≤ bufsiz
      → Within bufsiz (add_runpath order deflib env f bufsiz runpath buf)
  unfolding add_runpath
  add_runpath-Within runpath buf h =
      if_intro (Within bufsiz) (is_nil runpath) _ _ (λ e. h) λ e. cat-Within bufsiz buf runpath h

  add_ld_library_path-Within :
      (buf : Bytes)
      → length buf ≤ bufsiz
      → Within bufsiz (add_ld_library_path order deflib env f bufsiz buf)
  unfolding add_ld_library_path
  add_ld_library_path-Within buf h =
      if_intro (Within bufsiz) (secure_execution_mode env) _ _ (λ e. h)
        λ e. cat-Within bufsiz buf (getld_library_path path_max env) h

  add_rpath-Within :
      (runpath buf : Bytes)
      → length buf ≤ bufsiz
      → Within bufsiz (add_rpath order deflib env f bufsiz runpath buf)
  unfolding add_rpath
  add_rpath-Within runpath buf h =
      if_intro (Within bufsiz) (is_nil runpath) _ _
        (λ e. on_any-Within bufsiz (felf_rpath order f) _ λ tmp. cat-Within bufsiz buf tmp h) λ e. h

  pub fld_lib_path-Within : Within bufsiz (fld_lib_path order deflib env f bufsiz)
  unfolding fld_lib_path
  fld_lib_path-Within = on_any-Within bufsiz (felf_flags_1 order f) _ λ flags_1.
      on_some-Within bufsiz (add_deflib order deflib env f bufsiz flags_1) _
        (add_deflib-Within flags_1)
        λ buf h. on_any-Within bufsiz (felf_runpath order f) _ λ runpath.
          on_some-Within bufsiz (add_runpath order deflib env f bufsiz runpath buf) _
            (add_runpath-Within runpath buf h)
            λ buf2 h2.
              on_some-Within bufsiz (add_ld_library_path order deflib env f bufsiz buf2) _
                (add_ld_library_path-Within buf2 h2) λ buf3 h3. add_rpath-Within runpath buf3 h3
