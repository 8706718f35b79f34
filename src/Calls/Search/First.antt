-- ===== src/Calls/Search/First.antt =====
-- Which file __host_path_access finds.
use iamroot.Base.{
  ℕ, ◌+◌, ◌-◌, ◌<◌, ◌≡◌, ◌≢◌, inl, inr, Bool, true, false, ◌||◌, List, [], ◌∷◌, none, some, ◌==◌,
  ltb, leb, Bool-cases, length, arith,
}
use iamroot.Base.Bytes.{Bytes, name_max, path_max, strnlen, strncpy}
use iamroot.Base.Errno.{Reply, reply, refuse, eacces, Reply-cases}
use iamroot.Path.Text.{is_nil}
use iamroot.Path.Resolution.{cwd}
use iamroot.Calls.{Host, Proc, Ran, back, Call, next_faccessat, call, settle}
use iamroot.Calls.Search.{
  directories, candidate, goes_on, answered, search, search_path, ask_host, copy_found,
  host_path_access,
}

-- The host says of each file the same at all times.
pub record Settled (h : Host) (mode : ℕ) (verdict : Bytes → Reply ℕ) : Type 0 where
  pub says : (log : List Call) (b : Bytes) → h.answer log (next_faccessat cwd b mode 0) ≡ verdict b

-- The host refuses the file with EACCES, ENOENT or ENOTDIR.
abbrev pub IsPassed : (Bytes → Reply ℕ) → Bytes → Type 0
IsPassed verdict b = (e : ℕ) × (verdict b ≡ refuse e) × (goes_on e ≡ true)

-- The first file, in the order of the directories, that the host does not pass over, is one that it
-- allows. Directories of l bytes or more are left out.
pub data IsFirst (verdict : Bytes → Reply ℕ) (file : Bytes) (l : ℕ)
    : List Bytes → Bytes → Type 0 where
  here :
      (d : Bytes) (ds : List Bytes) (n : ℕ)
      → length d < l
      → verdict (candidate file d) ≡ reply n
      → IsFirst verdict file l (d ∷ ds) (candidate file d)
  passed :
      (d : Bytes) (ds : List Bytes) (b : Bytes)
      → length d < l
      → IsPassed verdict (candidate file d)
      → IsFirst verdict file l ds b
      → IsFirst verdict file l (d ∷ ds) b
  too_long :
      (d : Bytes) (ds : List Bytes) (b : Bytes)
      → (leb l (length d) ≡ true)
      → IsFirst verdict file l ds b
      → IsFirst verdict file l (d ∷ ds) b

back_none : (p q : Proc) (r : Bytes) → ◌≢◌ {A = Ran Bytes} (back none p) (back (some r) q)
back_none p q r = λ e. cc e

back_some :
    (p q : Proc) (a b : Bytes) → ◌≡◌ {A = Ran Bytes} (back (some a) p) (back (some b) q) → b ≡ a
back_some p q a b e = cc e

module _ (h : Host) (mode : ℕ) (verdict : Bytes → Reply ℕ) (bufsiz : ℕ) where
  -- A result of the loop is the buffer with the first file.
  abbrev Found : Bytes → ℕ → List Bytes → Bytes → Type 0
  Found file l ds r = (b : Bytes) × IsFirst verdict file l ds b × (r ≡ strncpy b bufsiz)

  -- One question to the host, with the rest of the loop
  answered-Found :
      (file : Bytes) (l : ℕ) (d : Bytes) (ds : List Bytes) (rest : Bool → Proc → Ran Bytes)
      (seen : Bool) (p q : Proc) (r : Bytes)
      → length d < l
      → ((seen : Bool) (p : Proc) → rest seen p ≡ back (some r) q → Found file l ds r)
      → answered
          (ask_host h mode)
          (copy_found h bufsiz)
          file
          l
          rest
          (candidate file d)
          seen
          (settle p (next_faccessat cwd (candidate file d) mode 0) (verdict (candidate file d)))
        ≡ back (some r) q
      → Found file l (d ∷ ds) r
  unfolding answered settle copy_found
  answered-Found file l d ds rest seen p q r k ih e =
      elim (Reply-cases (verdict (candidate file d))) [
        | inl (n, v) ↦ (
          candidate file d,
          here d ds n k v,
          back_some _ q (strncpy (candidate file d) bufsiz) r (rw v at e),
        )
        | inr (c, v) ↦ elim (Bool-cases (goes_on c)) [
          | inl g ↦
              let (b, f, t) = ih (seen || c == eacces) _ (rw g at (rw v at e)) in
              (b, passed d ds b k (c, v, g) f, t)
          | inr g ↦ absurd (back_none _ q r (rw g at (rw v at e)))
        ]
      ]

  search-Found :
      (file : Bytes) (l : ℕ) (ds : List Bytes) (seen : Bool) (p q : Proc) (r : Bytes)
      → Settled h mode verdict
      → search (ask_host h mode) (copy_found h bufsiz) file l ds seen p ≡ back (some r) q
      → Found file l ds r
  unfolding search ask_host call
  search-Found file l [] seen p q r s e = absurd (back_none _ q r e)
  search-Found file l (d ∷ ds) seen p q r s e = elim (Bool-cases (leb l (length d))) [
    | inl t ↦ skip (search-Found file l ds seen p q r s (rw t at e)) t
    | inr t ↦
        answered-Found file l d ds (search (ask_host h mode) (copy_found h bufsiz) file l ds) seen p
          q r (ground arith) (λ seen p. search-Found file l ds seen p q r s)
          (rw (s.says p.log (candidate file d)) at (rw t at e))
  ]
    where
      skip : Found file l ds r → leb l (length d) ≡ true → Found file l (d ∷ ds) r
      skip (b, f, v) t = (b, too_long d ds b t f, v)

  -- On a host that says of each file the same at all times, what __host_path_access leaves in the
  -- buffer is the first file in the directories of the path, in their order, that the host does not
  -- refuse with EACCES, ENOENT or ENOTDIR, cut to the size of the buffer; the name of the file is
  -- neither empty nor longer than NAME_MAX.
  pub host_path_access-IsFirst :
      (file path : Bytes) (p q : Proc) (r : Bytes)
      → Settled h mode verdict
      → host_path_access h file mode (some path) bufsiz p ≡ back (some r) q
      → (b : Bytes) × IsFirst verdict file (strnlen path (path_max - 1) + 1) (directories path) b
        × (r ≡ strncpy b bufsiz)
        × (is_nil file ≡ false)
        × (ltb name_max (strnlen file (name_max + 1)) ≡ false)
  unfolding host_path_access search_path
  host_path_access-IsFirst file path p q r s e = elim (Bool-cases (is_nil file)) [
    | inl t ↦ absurd (back_none _ q r (rw t at e))
    | inr t ↦ elim (Bool-cases (ltb name_max (strnlen file (name_max + 1)))) [
      | inl n ↦ absurd (back_none _ q r (rw n at (rw t at e)))
      | inr n ↦
          let (b, f, v) =
            search-Found file _ (directories path) false _ q r s (rw n at (rw t at e)) in
          (b, f, v, t, n)
    ]
  ]
