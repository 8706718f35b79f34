-- ===== src/Loader/Prepare/Ready.antt =====
-- What the first half of __ldso leaves to the second one.
pub mod Tests
use iamroot.Base.{
  ℕ, ◌+◌, ◌-◌, ◌≡◌, ◌≢◌, ◌∙◌, ◌⊎◌, sym, ap, refl, Bool, true, false, ◌||◌, List, Option, none, some,
  if◌then◌else◌, length, inl, inr, Bool-cases, arith, subst,
}
use iamroot.Base.Bytes.{Bytes, codes}
use iamroot.Base.Errno.{Reply, reply, refuse}
use iamroot.Root.{getrootdir}
use iamroot.Path.Realpath.{Outcome, ok, fail, overrun, out_of_fuel}
use iamroot.Path.Resolution.{cwd, at_none, path_resolution}
use iamroot.Env.{getenv, unsetenv}
use iamroot.Env.Laws.{getenv-unsetenv}
use iamroot.Elf.{Order}
use iamroot.Calls.{Host, Proc}
use iamroot.Loader.{Target}
use iamroot.Loader.Machine.{is_gnu_linux_ext, is_musl, is_freebsd, is_netbsd, is_openbsd}
use iamroot.Loader.Arguments.{◌>>=◌, Options, total_shift}
use iamroot.Loader.Arguments.Expected.{IsCoherent}
use iamroot.Loader.Names.{has_inhibit_cache_option, has_argv0_option, has_preload_option}
use iamroot.Loader.Preload.{Walked, walked, failed, lost, exhausted}
use iamroot.Loader.Places.{ld_library_path}
use iamroot.Loader.Prepare.{
  Features, none_of, options_with, unless_empty, used, on_reply, Answers, elf_interp_ldso_abi,
  gnu_options, gnu_features, musl_features, bsd_features, features, ld_preload, on_walked, on_list,
  inhibit_rpath, clear, make_lists, prepare,
}

-- Of a result, if there is one
abbrev pub Holds {ℓ κ} : {A : Type ℓ} → (A → Type κ) → Outcome A → Type κ
Holds P (ok a) = P a
Holds P (fail e) = Unit
Holds P overrun = Unit
Holds P out_of_fuel = Unit

bind-Holds :
    {A B : Type 0} (P : A → Type 0) (Q : B → Type 0) (r : Outcome A) (k : A → Outcome B)
    → Holds P r
    → ((x : A) → P x → Holds Q (k x))
    → Holds Q (r >>= k)
bind-Holds P Q (ok x) k h f = f x h
bind-Holds P Q (fail e) k h f = tt
bind-Holds P Q overrun k h f = tt
bind-Holds P Q out_of_fuel k h f = tt

after-Holds :
    {A B : Type 0} (Q : B → Type 0) (r : Outcome A) (k : A → Outcome B)
    → ((x : A) → Holds Q (k x))
    → Holds Q (r >>= k)
after-Holds Q (ok x) k f = f x
after-Holds Q (fail e) k f = tt
after-Holds Q overrun k f = tt
after-Holds Q out_of_fuel k f = tt

on_reply-Holds :
    {A B : Type 0} (Q : B → Type 0) (r : Reply A) (k : A → Outcome B)
    → ((x : A) → r ≡ reply x → Holds Q (k x))
    → Holds Q (on_reply r k)
on_reply-Holds Q (reply x) k f = f x refl
on_reply-Holds Q (refuse e) k f = tt

-- The loader can be run itself, or has no options.
abbrev Runnable : Features → Type 0
Runnable f = (f.shift ≡ 1) ⊎ (f ≡ none_of)

musl_features-Runnable : (t : Target) (f : Features) → Runnable f → Runnable (musl_features t f)
unfolding musl_features
musl_features-Runnable t f h = elim (Bool-cases (is_musl t)) [
  | inl e ↦ rw e (inl refl)
  | inr e ↦ rw e h
]

bsd_features-Runnable :
    (t : Target) (f : Features)
    → (is_netbsd t || is_openbsd t) ≡ false
    → Runnable f
    → Runnable (bsd_features t f)
unfolding bsd_features
bsd_features-Runnable t f n h = elim (Bool-cases (is_freebsd t)) [
  | inl e ↦ rw (n, e) (inl refl)
  | inr e ↦ rw (n, e) h
]

-- What __ldso has of its first half
abbrev pub IsReady : Options × List Bytes → Type 0
IsReady (o, new) =
    IsCoherent o
    × (getenv (codes "LD_PRELOAD") new ≡ none)
    × (getenv (codes "LD_LIBRARY_PATH") new ≡ none)

gnu_options-Runnable :
    (cache argv0 preload : Outcome Bool) → Holds Runnable (gnu_options cache argv0 preload)
unfolding gnu_options
gnu_options-Runnable (ok c) (ok r) (ok l) = inl refl
gnu_options-Runnable (ok c) (ok r) (fail e) = tt
gnu_options-Runnable (ok c) (ok r) overrun = tt
gnu_options-Runnable (ok c) (ok r) out_of_fuel = tt
gnu_options-Runnable (ok c) (fail e) l = tt
gnu_options-Runnable (ok c) overrun l = tt
gnu_options-Runnable (ok c) out_of_fuel l = tt
gnu_options-Runnable (fail e) r l = tt
gnu_options-Runnable overrun r l = tt
gnu_options-Runnable out_of_fuel r l = tt

options_with-IsCoherent :
    (f : Features) (interp : Bytes) (preload library_path inhibit : Option Bytes)
    → Runnable f
    → IsCoherent (options_with f interp preload library_path inhibit)
unfolding options_with none_of total_shift
options_with-IsCoherent f interp preload library_path inhibit (inl e) = inl e
options_with-IsCoherent f interp preload library_path inhibit (inr e) =
    inr (ap (λ g. total_shift (options_with g interp preload library_path inhibit)) e)

unsetenv-clear :
    (env env1 env2 : List Bytes)
    → unsetenv (codes "LD_PRELOAD") env ≡ reply env1
    → unsetenv (codes "LD_LIBRARY_PATH") env1 ≡ reply env2
    → (getenv (codes "LD_PRELOAD") env2 ≡ none) × (getenv (codes "LD_LIBRARY_PATH") env2 ≡ none)
unsetenv-clear env env1 env2 e g =
    let (first, f) = getenv-unsetenv (codes "LD_PRELOAD") (codes "LD_PRELOAD") env env1 e in
    let (second, others) =
      getenv-unsetenv (codes "LD_LIBRARY_PATH") (codes "LD_PRELOAD") env1 env2 g in
    (others (λ q. let n : 15 ≡ 10 = ap length q in omega arith) ∙ first, second)

module _ (order : Order) (rounds : ℕ) (h : Host) (a : Answers) where
  gnu_features-Runnable :
      (t : Target) (pt_interp : Bytes) (p : Proc)
      → Holds Runnable (gnu_features order rounds h a t pt_interp p)
  unfolding gnu_features
  gnu_features-Runnable t pt_interp p = elim (Bool-cases (is_gnu_linux_ext t)) [
    | inl e ↦ rw e (gnu_options-Runnable _ _ _)
    | inr e ↦ rw e (inr refl)
  ]

  features-Runnable :
      (t : Target) (pt_interp : Bytes) (p : Proc)
      → (is_netbsd t || is_openbsd t) ≡ false
      → Holds Runnable (features order rounds h a t pt_interp p)
  unfolding features
  features-Runnable t pt_interp p n =
      bind-Holds Runnable Runnable (gnu_features order rounds h a t pt_interp p)
        (λ f. ok (bsd_features t (musl_features t f))) (gnu_features-Runnable t pt_interp p)
        λ f r. bsd_features-Runnable t (musl_features t f) n (musl_features-Runnable t f r)

  -- The options that stand in the result
  clear-IsReady :
      (f : Features) (preload library_path inhibit : Option Bytes) (pt_interp : Bytes)
      (env : List Bytes) (room : ℕ) (p : Proc)
      → Runnable f
      → Holds IsReady (clear order rounds h a f preload library_path inhibit pt_interp env room p)
  unfolding clear
  clear-IsReady f preload library_path inhibit pt_interp env room p r =
      on_reply-Holds IsReady (unsetenv (codes "LD_PRELOAD") env) _ λ env1 e.
        on_reply-Holds IsReady (unsetenv (codes "LD_LIBRARY_PATH") env1) _ λ env2 g.
          after-Holds IsReady
            (path_resolution rounds (h.fs p.log) p.env p.errno cwd (some pt_interp) room at_none) _
            λ interp.
              let (first, second) = unsetenv-clear env env1 env2 e g in
              (options_with-IsCoherent f interp preload library_path inhibit r, first, second)

  on_walked-IsReady :
      (w : Walked) (k : Bytes → Proc → Outcome (Options × List Bytes))
      → ((buf : Bytes) (q : Proc) → Holds IsReady (k buf q))
      → Holds IsReady (on_walked w k)
  on_walked-IsReady (walked buf q) k f = f buf q
  on_walked-IsReady (failed q) k f = tt
  on_walked-IsReady lost k f = tt
  on_walked-IsReady exhausted k f = tt

  on_list-IsReady :
      (l : Option Bytes) (k : Bytes → Outcome (Options × List Bytes))
      → ((s : Bytes) → Holds IsReady (k s))
      → Holds IsReady (on_list order rounds h a l k)
  on_list-IsReady none k f = tt
  on_list-IsReady (some s) k f = f s

  make_lists-IsReady :
      (t : Target) (pt_interp : Bytes) (f : Features) (path : Bytes) (env : List Bytes) (room : ℕ)
      (p : Proc)
      → Runnable f
      → Holds IsReady (make_lists order rounds h a t pt_interp f path env room p)
  unfolding make_lists
  make_lists-IsReady t pt_interp f path env room p r =
      on_walked-IsReady (ld_preload order rounds h a t path env room p) _
        λ buf q. on_list-IsReady _ _ λ list. clear-IsReady f _ _ _ pt_interp env _ q r

  -- What the first half of __ldso has found out of a program that is not one of NetBSD or OpenBSD:
  -- the loader can be run itself, or has no options, and the environment that it leaves has neither
  -- LD_PRELOAD nor LD_LIBRARY_PATH.
  pub prepare-IsReady :
      (room : ℕ) (p : Proc) (path : Bytes) (env : List Bytes) (t : Target) (pt_interp : Bytes)
      → elf_interp_ldso_abi order rounds h a path p ≡ ok (t, pt_interp)
      → (is_netbsd t || is_openbsd t) ≡ false
      → Holds IsReady (prepare order rounds h a room p path env)
  unfolding prepare
  prepare-IsReady room p path env t pt_interp e n = rw e (
      bind-Holds Runnable IsReady (features order rounds h a t pt_interp p)
        (λ f. make_lists order rounds h a t pt_interp f path env room p)
        (features-Runnable t pt_interp p n)
        λ f r. make_lists-IsReady t pt_interp f path env room p r)
