-- ===== src/Loader/Places/Access.antt =====
-- The places where __ldso_access looks for a library, in their order.
use iamroot.Base.{
  ℕ, ◌≡◌, ◌∙◌, ◌⊎◌, sym, ap, refl, true, false, List, [], ◌∷◌, ◌++◌, Option, none, some, ◌==◌,
  if◌then◌else◌, inl, inr, Bool-cases, arith, subst,
}
use iamroot.Base.Bytes.{Bytes}
use iamroot.Base.Bits.{has_bit}
use iamroot.Base.Errno.{enoent}
use iamroot.Path.Text.{is_nil}
use iamroot.Calls.{Proc, Ran, back, crashed, stuck}
use iamroot.Loader.Paths.{has_slash}
use iamroot.Loader.Places.{
  nodeflib_bit, secure_execution_mode, or_next, in_deflib, in_cache, in_runpath, in_library_path,
  in_rpath, ldso_access,
}

-- What looks for the library in one place
abbrev pub Place : Type 0
Place = Proc → Ran Bytes

-- Nothing is found there: the result is empty, or an error ENOENT.
abbrev pub Missed : Ran Bytes → Proc → Type 0
Missed (back (some buf) p) q = (is_nil buf ≡ true) × (p ≡ q)
Missed (back none p) q = (p.errno ≡ enoent) × (p ≡ q)
Missed crashed q = true ≡ false
Missed stuck q = true ≡ false

-- Nothing is found in any of the places.
abbrev pub Misses : List Place → Proc → Proc → Type 0
Misses [] p q = p ≡ q
Misses (place ∷ places) p q = (r : Proc) × Missed (place p) r × Misses places r q

-- A name, or an error other than ENOENT
abbrev pub Decides : Ran Bytes → Type 0
Decides (back (some buf) p) = is_nil buf ≡ false
Decides (back none p) = (p.errno == enoent) ≡ false
Decides crashed = Unit
Decides stuck = Unit

-- The result is that of the first place that decides, or ENOENT, if none does.
abbrev pub IsFirst : List Place → Proc → Ran Bytes → Type 0
IsFirst places p result =
    ((before : List Place) × (place : Place) × (after : List Place) × (q : Proc) × (places
        ≡ before ++ place ∷ after)
      × Misses before p q
      × (result ≡ place q)
      × Decides result)
    ⊎ ((q : Proc) × Misses places p q × (result ≡ back none (record q { errno = enoent })))

unfoldable first_found : List Place → Place
first_found [] p = back none (record p { errno = enoent })
first_found (place ∷ places) p = or_next (place p) λ q. first_found places q

-- One place
or_next-cases :
    (r : Ran Bytes) (next : Place)
    → ((or_next r next ≡ r) × Decides r) ⊎ ((q : Proc) × Missed r q × (or_next r next ≡ next q))
unfolding or_next
or_next-cases (back (some buf) p) next = elim (Bool-cases (is_nil buf)) [
  | inl e ↦ rw e (inr (p, (refl, refl), refl))
  | inr e ↦ rw e (inl (refl, refl))
]
or_next-cases (back none p) next = elim (Bool-cases (p.errno == enoent)) [
  | inl e ↦ rw e (inr (p, (ground arith, refl), refl))
  | inr e ↦ rw e (inl (refl, refl))
]
or_next-cases crashed next = inl (refl, tt)
or_next-cases stuck next = inl (refl, tt)

first_found-IsFirst : (places : List Place) (p : Proc) → IsFirst places p (first_found places p)
unfolding first_found
first_found-IsFirst [] p = inr (p, refl, refl)
first_found-IsFirst (place ∷ places) p = elim (or_next-cases (place p) λ q. first_found places q) [
  | inl (e, d) ↦ inl ([], place, places, p, refl, refl, e, subst Decides (sym e) d)
  | inr (q, m, e) ↦ elim (first_found-IsFirst places q) [
    | inl (before, other, after, r, split, missed, f, d) ↦ inl (
      place ∷ before,
      other,
      after,
      r,
      ap (λ l. place ∷ l) split,
      (q, m, missed),
      e ∙ f,
      subst Decides (sym e) d,
    )
    | inr (r, missed, f) ↦ inr (r, (q, m, missed), e ∙ f)
  ]
]

module _ (access : Option Bytes → Place) (cache : Place) (env : List Bytes) (path : Bytes) where
  -- The places of ld-linux.so(8): DT_RPATH, of the library and of the program, if there is no
  -- DT_RUNPATH; LD_LIBRARY_PATH, but not in secure-execution mode; DT_RUNPATH; the cache; and the
  -- default directories, but not with -z nodeflib
  abbrev pub rpath_places : Option Bytes → Option Bytes → Option Bytes → List Place
  rpath_places exec_rpath rpath none = access rpath ∷ access exec_rpath ∷ []
  rpath_places exec_rpath rpath (some runpath) = []

  abbrev pub variable_places : Option Bytes → List Place
  variable_places none = []
  variable_places (some v) = if secure_execution_mode env then [] else access (some v) ∷ []

  abbrev pub runpath_places : Option Bytes → List Place
  runpath_places none = []
  runpath_places (some runpath) = access (some runpath) ∷ []

  abbrev pub deflib_places : ℕ → Option Bytes → List Place
  deflib_places flags_1 none = []
  deflib_places flags_1 (some deflib) =
      if has_bit nodeflib_bit flags_1 then [] else access (some deflib) ∷ []

  abbrev pub places_of :
      Option Bytes → Option Bytes → Option Bytes → Option Bytes → ℕ → Option Bytes → List Place
  places_of exec_rpath rpath ld_library_path runpath flags_1 deflib =
      rpath_places exec_rpath rpath runpath
      ++ (variable_places ld_library_path
          ++ (runpath_places runpath ++ cache ∷ deflib_places flags_1 deflib))

  in_deflib-first :
      (flags_1 : ℕ) (deflib : Option Bytes) (p : Proc)
      → in_deflib access cache env path flags_1 deflib p
        ≡ first_found (deflib_places flags_1 deflib) p
  unfolding in_deflib first_found
  in_deflib-first flags_1 none p = refl
  in_deflib-first flags_1 (some deflib) p = elim (Bool-cases (has_bit nodeflib_bit flags_1)) [
    | inl e ↦ rw e refl
    | inr e ↦ rw e refl
  ]

  in_cache-first :
      (flags_1 : ℕ) (deflib : Option Bytes) (p : Proc)
      → in_cache access cache env path flags_1 deflib p
        ≡ first_found (cache ∷ deflib_places flags_1 deflib) p
  unfolding in_cache first_found
  in_cache-first flags_1 deflib p = λ i. or_next (cache p) λ q. in_deflib-first flags_1 deflib q i

  in_runpath-first :
      (runpath : Option Bytes) (flags_1 : ℕ) (deflib : Option Bytes) (p : Proc)
      → in_runpath access cache env path runpath flags_1 deflib p
        ≡ first_found (runpath_places runpath ++ cache ∷ deflib_places flags_1 deflib) p
  unfolding in_runpath first_found
  in_runpath-first none flags_1 deflib p = in_cache-first flags_1 deflib p
  in_runpath-first (some runpath) flags_1 deflib p =
      λ i. or_next (access (some runpath) p) λ q. in_cache-first flags_1 deflib q i

  in_library_path-first :
      (ld_library_path runpath : Option Bytes) (flags_1 : ℕ) (deflib : Option Bytes) (p : Proc)
      → in_library_path access cache env path ld_library_path runpath flags_1 deflib p
        ≡ first_found
            (variable_places ld_library_path
              ++ (runpath_places runpath ++ cache ∷ deflib_places flags_1 deflib))
            p
  unfolding in_library_path first_found
  in_library_path-first none runpath flags_1 deflib p = in_runpath-first runpath flags_1 deflib p
  in_library_path-first (some v) runpath flags_1 deflib p =
      elim (Bool-cases (secure_execution_mode env)) [
        | inl e ↦ rw e (in_runpath-first runpath flags_1 deflib p)
        | inr e ↦
            rw e (λ i. or_next (access (some v) p) λ q. in_runpath-first runpath flags_1 deflib q i)
      ]

  in_rpath-first :
      (exec_rpath rpath ld_library_path runpath : Option Bytes) (flags_1 : ℕ)
      (deflib : Option Bytes) (p : Proc)
      → in_rpath access cache env path exec_rpath rpath ld_library_path runpath flags_1 deflib p
        ≡ first_found (places_of exec_rpath rpath ld_library_path runpath flags_1 deflib) p
  unfolding in_rpath first_found
  in_rpath-first exec_rpath rpath v none flags_1 deflib p = λ i.
      or_next (access rpath p)
        λ q. or_next (access exec_rpath q) λ r. in_library_path-first v none flags_1 deflib r i
  in_rpath-first exec_rpath rpath v (some runpath) flags_1 deflib p =
      in_library_path-first v (some runpath) flags_1 deflib p

  -- Of a name without a slash, __ldso_access gives what is found in the first place, in the order of
  -- ld-linux.so(8), where something is found or where looking for it fails by another error than
  -- ENOENT, and ENOENT, if there is none. DT_RPATH is no place, if there is DT_RUNPATH,
  -- LD_LIBRARY_PATH is none in secure-execution mode, and the default directories are none with
  -- -z nodeflib.
  pub ldso_access-IsFirst :
      (bufsiz : ℕ) (exec_rpath rpath ld_library_path runpath : Option Bytes) (flags_1 : ℕ)
      (deflib : Option Bytes) (p : Proc)
      → has_slash path ≡ false
      → IsFirst (places_of exec_rpath rpath ld_library_path runpath flags_1 deflib) p (
          ldso_access access cache env path bufsiz exec_rpath rpath ld_library_path runpath flags_1
            deflib p)
  unfolding ldso_access
  ldso_access-IsFirst bufsiz exec_rpath rpath v runpath flags_1 deflib p h = rw h (
      subst (IsFirst (places_of exec_rpath rpath v runpath flags_1 deflib) p)
        (sym (in_rpath-first exec_rpath rpath v runpath flags_1 deflib p))
        (first_found-IsFirst (places_of exec_rpath rpath v runpath flags_1 deflib) p))
