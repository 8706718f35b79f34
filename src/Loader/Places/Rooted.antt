-- ===== src/Loader/Places/Rooted.antt =====
-- The directories in the library path that the loader of a program is given.
use iamroot.Base.{
  ℕ, ◌≡◌, ◌≤◌, ◌∙◌, sym, ap, refl, take-all, false, List, [], ◌∷◌, ◌++◌, append_assoc, append-nil,
  map, Option, none, some, ltb, if◌then◌else◌, length, inl, inr, Bool-cases, subst, if_intro,
}
use iamroot.Base.Bytes.{Bytes, path_max}
use iamroot.Base.Errno.{Reply, reply, refuse}
use iamroot.Path.Text.{is_nil}
use iamroot.Identity.Groups.{tokens, strtok}
use iamroot.Elf.{Order}
use iamroot.Elf.Interp.{File}
use iamroot.Loader.Paths.{colon, path_strncat, getld_library_path}
use iamroot.Loader.Places.Short.{Within, fld_lib_path-Within}
use iamroot.Loader.Paths.Joined.{
  Has, IsName, AllNames, IsName-append, tokens-name, tokens-AllNames, path_strncat-Has,
}
use iamroot.Base.Bits.{has_bit}
use iamroot.Loader.Places.{
  nodeflib_bit, on_some, felf_flags_1, felf_rpath, felf_runpath, secure_execution_mode, kept, cat,
  add_deflib, add_runpath, add_ld_library_path, add_rpath, fld_lib_path, ld_lib_path,
  each_library_path, ld_library_path,
}

-- The directories that each place of ld-linux.so(8) names
abbrev pub deflib_names : ℕ → Bytes → List Bytes
deflib_names flags_1 deflib = if has_bit nodeflib_bit flags_1 then [] else tokens colon deflib

abbrev pub variable_names : List Bytes → List Bytes
variable_names env =
    if secure_execution_mode env then [] else tokens colon (getld_library_path path_max env)

abbrev pub rpath_names : Bytes → Bytes → List Bytes
rpath_names runpath rpath = if is_nil runpath then tokens colon rpath else []

-- All of them, in the order of __fld_lib_path
abbrev pub library_names : List Bytes → ℕ → Bytes → Bytes → Bytes → List Bytes
library_names env flags_1 deflib runpath rpath =
    ((deflib_names flags_1 deflib ++ tokens colon runpath) ++ variable_names env)
    ++ rpath_names runpath rpath

-- The names in a list, if there is one
abbrev pub Lists : List Bytes → Option Bytes → Type 0
Lists names none = Unit
Lists names (some s) = tokens colon s ≡ names

kept-Lists : (names : List Bytes) (r : Reply Bytes) → Has names r → Lists names (kept r)
kept-Lists names (reply s) h = h
kept-Lists names (refuse e) h = h

cat-Lists :
    (bufsiz : ℕ) (buf tmp : Bytes)
    → Lists (tokens colon buf ++ tokens colon tmp) (cat bufsiz buf tmp)
unfolding cat
cat-Lists bufsiz buf tmp =
    kept-Lists (tokens colon buf ++ tokens colon tmp) (path_strncat buf tmp bufsiz)
      (path_strncat-Has buf tmp bufsiz)

cat-after :
    (bufsiz : ℕ) (names more : List Bytes) (buf tmp : Bytes)
    → tokens colon buf ≡ names
    → tokens colon tmp ≡ more
    → Lists (names ++ more) (cat bufsiz buf tmp)
cat-after bufsiz names more buf tmp e f =
    subst (λ l. Lists l (cat bufsiz buf tmp)) (λ i. e i ++ f i) (cat-Lists bufsiz buf tmp)

on_some-Lists :
    (names more : List Bytes) (o : Option Bytes) (k : Bytes → Option Bytes)
    → Lists names o
    → ((s : Bytes) → tokens colon s ≡ names → Lists more (k s))
    → Lists more (on_some o k)
on_some-Lists names more none k h f = tt
on_some-Lists names more (some s) k h f = f s h

-- The same of a list that is within a buffer
on_buffer-Lists :
    (bufsiz : ℕ) (names more : List Bytes) (o : Option Bytes) (k : Bytes → Option Bytes)
    → Lists names o
    → Within bufsiz o
    → ((s : Bytes) → tokens colon s ≡ names → length s ≤ bufsiz → Lists more (k s))
    → Lists more (on_some o k)
on_buffer-Lists bufsiz names more none k h w f = tt
on_buffer-Lists bufsiz names more (some s) k h w f = f s h w

-- A list within PATH_MAX is read whole.
strtok-Within : (s : Bytes) → length s ≤ path_max → strtok colon s ≡ tokens colon s
unfolding strtok
strtok-Within s h = ap (tokens colon) (take-all path_max s h)

-- Each path name of a list, with the root directory in front of it
each_library_path-Lists :
    (root : Bytes) (bufsiz : ℕ) (paths : List Bytes) (buf : Bytes) (names : List Bytes)
    → IsName colon root
    → AllNames colon paths
    → tokens colon buf ≡ names
    → Lists (names ++ map (λ path. root ++ path) paths) (each_library_path root bufsiz paths buf)
unfolding each_library_path
each_library_path-Lists root bufsiz [] buf names r h e = e ∙ sym (append-nil names)
each_library_path-Lists root bufsiz (path ∷ paths) buf names r (n, k, h) e =
    if_intro (Lists (names ++ map (λ path. root ++ path) (path ∷ paths)))
      (ltb (length (root ++ path)) path_max)
      (on_some (cat bufsiz buf (root ++ path)) λ b. each_library_path root bufsiz paths b) none
      (λ g.
        on_some-Lists (names ++ (root ++ path) ∷ [])
          (names ++ map (λ path. root ++ path) (path ∷ paths)) (cat bufsiz buf (root ++ path))
          (λ b. each_library_path root bufsiz paths b)
          (cat-after bufsiz names ((root ++ path) ∷ []) buf (root ++ path) e (
            tokens-name colon (root ++ path) (is_nil-append root path n)
              (IsName-append colon root path r k)))
          λ b f.
            subst (λ l. Lists l (each_library_path root bufsiz paths b))
              (append_assoc names ((root ++ path) ∷ []) (map (λ path. root ++ path) paths))
              (each_library_path-Lists root bufsiz paths b (names ++ (root ++ path) ∷ []) r h f))
      λ g. tt
  where
    is_nil-append : (s t : Bytes) → is_nil t ≡ false → is_nil (s ++ t) ≡ false
    is_nil-append [] t e = e
    is_nil-append (c ∷ s) t e = refl

-- What is behind a step of __fld_lib_path
add_deflib-Lists :
    (order : Order) (deflib : Bytes) (env : List Bytes) (f : File) (bufsiz flags_1 : ℕ)
    → Lists (deflib_names flags_1 deflib) (add_deflib order (some deflib) env f bufsiz flags_1)
unfolding add_deflib tokens
add_deflib-Lists order deflib env f bufsiz flags_1 =
    elim (Bool-cases (has_bit nodeflib_bit flags_1)) [
      | inl e ↦ rw e refl
      | inr e ↦ rw e (cat-Lists bufsiz [] deflib)
    ]

add_runpath-Lists :
    (order : Order) (deflib : Option Bytes) (env : List Bytes) (f : File) (bufsiz : ℕ)
    (runpath buf : Bytes) (names : List Bytes)
    → tokens colon buf ≡ names
    → Lists (names ++ tokens colon runpath) (add_runpath order deflib env f bufsiz runpath buf)
unfolding add_runpath tokens
add_runpath-Lists order deflib env f bufsiz [] buf names e = e ∙ sym (append-nil names)
add_runpath-Lists order deflib env f bufsiz (c ∷ runpath) buf names e =
    cat-after bufsiz names (tokens colon (c ∷ runpath)) buf (c ∷ runpath) e refl

add_ld_library_path-Lists :
    (order : Order) (deflib : Option Bytes) (env : List Bytes) (f : File) (bufsiz : ℕ) (buf : Bytes)
    (names : List Bytes)
    → tokens colon buf ≡ names
    → Lists (names ++ variable_names env) (add_ld_library_path order deflib env f bufsiz buf)
unfolding add_ld_library_path
add_ld_library_path-Lists order deflib env f bufsiz buf names e =
    elim (Bool-cases (secure_execution_mode env)) [
      | inl s ↦ rw s (e ∙ sym (append-nil names))
      | inr s ↦ rw s (
          cat-after bufsiz names (tokens colon (getld_library_path path_max env)) buf
            (getld_library_path path_max env) e refl)
    ]

add_rpath-Lists :
    (order : Order) (deflib : Option Bytes) (env : List Bytes) (f : File) (bufsiz : ℕ)
    (rpath runpath buf : Bytes) (names : List Bytes)
    → felf_rpath order f ≡ some rpath
    → tokens colon buf ≡ names
    → Lists (names ++ rpath_names runpath rpath) (add_rpath order deflib env f bufsiz runpath buf)
unfolding add_rpath
add_rpath-Lists order deflib env f bufsiz rpath [] buf names h e =
    rw h (cat-after bufsiz names (tokens colon rpath) buf rpath e refl)
add_rpath-Lists order deflib env f bufsiz rpath (c ∷ runpath) buf names h e =
    e ∙ sym (append-nil names)

module _ (order : Order) (env : List Bytes) (f : File) (flags_1 : ℕ) (deflib runpath rpath : Bytes)
    (flags : felf_flags_1 order f ≡ some flags_1)
    (has_runpath : felf_runpath order f ≡ some runpath)
    (has_rpath : felf_rpath order f ≡ some rpath) where
  fld_lib_path-Lists :
      (bufsiz : ℕ)
      → Lists
          (library_names env flags_1 deflib runpath rpath)
          (fld_lib_path order (some deflib) env f bufsiz)
  unfolding fld_lib_path
  fld_lib_path-Lists bufsiz =
      let one = deflib_names flags_1 deflib in
      let two = one ++ tokens colon runpath in
      let all = library_names env flags_1 deflib runpath rpath in
      let three = two ++ variable_names env in
      rw (flags, has_runpath)
        (on_some-Lists one (library_names env flags_1 deflib runpath rpath)
          (add_deflib order (some deflib) env f bufsiz flags_1) _
          (add_deflib-Lists order deflib env f bufsiz flags_1)
          λ a e.
            on_some-Lists two (library_names env flags_1 deflib runpath rpath)
              (add_runpath order (some deflib) env f bufsiz runpath a) _
              (add_runpath-Lists order (some deflib) env f bufsiz runpath a one e)
              λ b g.
                on_some-Lists three (library_names env flags_1 deflib runpath rpath)
                  (add_ld_library_path order (some deflib) env f bufsiz b) _
                  (add_ld_library_path-Lists order (some deflib) env f bufsiz b two g)
                  λ c h.
                    add_rpath-Lists order (some deflib) env f bufsiz rpath runpath c three has_rpath
                      h)

  -- Of a root directory without a colon, the library path that __ld_library_path gives has the
  -- default directories, unless the program is linked with -z nodeflib, those of DT_RUNPATH, those of
  -- LD_LIBRARY_PATH, unless the process is in secure-execution mode, and those of DT_RPATH, if there
  -- is no DT_RUNPATH, in this order, and each with the root directory in front of it.
  pub ld_library_path-rooted :
      (root buf : Bytes) (bufsiz : ℕ)
      → IsName colon root
      → ld_library_path order (some deflib) env root bufsiz (reply f) ≡ some buf
      → tokens colon buf
        ≡ map (λ path. root ++ path) (library_names env flags_1 deflib runpath rpath)
  unfolding ld_library_path ld_lib_path
  ld_library_path-rooted root buf bufsiz r e =
      let names = library_names env flags_1 deflib runpath rpath in
      subst (Lists (map (λ path. root ++ path) names)) e (
        on_buffer-Lists path_max names (map (λ path. root ++ path) names)
          (fld_lib_path order (some deflib) env f path_max) _ (fld_lib_path-Lists path_max)
          (fld_lib_path-Within order (some deflib) env f path_max)
          λ s g within.
            subst
              (λ l.
                Lists (map (λ path. root ++ path) l)
                  (each_library_path root bufsiz (strtok colon s) []))
              (strtok-Within s within ∙ g)
              (each_library_path-Lists root bufsiz (strtok colon s) [] [] r
                (subst (AllNames colon) (sym (strtok-Within s within)) (tokens-AllNames colon s))
                (unfold tokens in refl)))
