-- ===== src/Loader/Preload/Ends.antt =====
-- The walk over the libraries that need one another ends.
use iamroot.Base.{
  ℕ, zero, suc, ◌+◌, ◌-◌, ◌<◌, ◌≤◌, ◌≡◌, ◌∙◌, sym, ap, refl, Bool, true, false, not, List, [], ◌∷◌,
  ◌++◌, append_assoc, append-nil, Option, none, some, ltb, if◌then◌else◌, length, length-append,
  inl, inr, Bool-cases, arith, if_intro,
}
use iamroot.Base.Bytes.{Bytes}
use iamroot.Base.Errno.{Reply, reply, refuse}
use iamroot.Identity.Groups.{strtok}
use iamroot.Calls.{Proc, Ran, back, crashed, stuck}
use iamroot.Loader.Paths.{colon, basename, path_strncat, is_in_path}
use iamroot.Loader.Preload.{
  Walked, walked, failed, lost, exhausted, and_then, on_access, is_absolute, on_needed, each_needed,
  on_needs, on_room, preload_needed, preload_executable,
}

-- The walk has ended, and the list that it gives is the one that it was given with something
-- behind it, in the buffer.
abbrev pub Extends : ℕ → Bytes → Walked → Type 0
Extends bufsiz buf (walked b p) = (more : Bytes) × (b ≡ buf ++ more) × (length b < bufsiz)
Extends bufsiz buf (failed p) = Unit
Extends bufsiz buf lost = Unit
Extends bufsiz buf exhausted = ⊥

-- What __path_strncat gives: something behind the list, which is longer by it
abbrev Joins : ℕ → Bytes → Bytes → Reply Bytes → Type 0
Joins bufsiz buf path (refuse e) = Unit
Joins bufsiz buf path (reply b) =
    (more : Bytes) × (b ≡ buf ++ more) × (length b < bufsiz) × (length path ≤ length more)

path_strncat-Joins :
    (buf path : Bytes) (bufsiz : ℕ)
    → length buf < bufsiz
    → Joins bufsiz buf path (path_strncat buf path bufsiz)
unfolding path_strncat
path_strncat-Joins [] path bufsiz h =
    if_intro (Joins bufsiz [] path) (ltb (bufsiz - 0 - 1) (length path + 0)) _ _ (λ e. tt)
      λ e. (path, refl, ground arith, omega arith)
path_strncat-Joins (c ∷ buf) [] bufsiz h =
    if_intro (Joins bufsiz (c ∷ buf) []) (ltb (bufsiz - suc (length buf) - 1) (0 + 1)) _ _ (λ e. tt)
      λ e. ([], refl, omega (arith, length-append buf []), omega arith)
path_strncat-Joins (c ∷ buf) (d ∷ path) bufsiz h =
    if_intro (Joins bufsiz (c ∷ buf) (d ∷ path))
      (ltb (bufsiz - suc (length buf) - 1) (suc (length path) + 1)) _ _ (λ e. tt)
      λ e. (
        colon ∷ d ∷ path,
        refl,
        (let n = length-append buf (colon ∷ d ∷ path) in ground arith),
        omega arith,
      )

Extends-refl :
    (bufsiz : ℕ) (buf : Bytes) (p : Proc) → length buf < bufsiz → Extends bufsiz buf (walked buf p)
Extends-refl bufsiz buf p h = ([], sym (append-nil buf), h)

Extends-trans :
    (bufsiz : ℕ) (buf b more : Bytes) (r : Walked)
    → b ≡ buf ++ more
    → Extends bufsiz b r
    → Extends bufsiz buf r
Extends-trans bufsiz buf b more (walked c p) e (rest, f, h) =
    (more ++ rest, f ∙ rw e (append_assoc buf more rest), h)
Extends-trans bufsiz buf b more (failed p) e h = tt
Extends-trans bufsiz buf b more lost e h = tt
Extends-trans bufsiz buf b more exhausted e h = h

module _ (needs : Bytes → Option Bytes) (access : Bytes → Proc → Ran Bytes) (is_lib : Bytes → Bool)
    (bufsiz : ℕ) where
  -- What the recursive call keeps to, from m bytes in the list on
  abbrev Keeps : ℕ → (Bytes → Bytes → Proc → Walked) → Type 0
  Keeps m preload =
      (so c : Bytes) (q : Proc)
      → is_lib (basename so) ≡ true
      → m ≤ length c
      → length c < bufsiz
      → Extends bufsiz c (preload so c q)

  on_access-Extends :
      (m : ℕ) (preload : Bytes → Bytes → Proc → Walked) (buf : Bytes) (r : Ran Bytes)
      → Keeps m preload
      → m ≤ length buf
      → length buf < bufsiz
      → Extends bufsiz buf (
          on_access r λ so q.
            if not (is_lib (basename so))
            then walked buf q
            else if is_in_path so buf
            then walked buf q
            else preload so buf q)
  on_access-Extends m preload buf (back (some so) q) keep h k =
      elim (Bool-cases (is_lib (basename so))) [
        | inl lib ↦ rw lib (
            if_intro (Extends bufsiz buf) (is_in_path so buf) (walked buf q) (preload so buf q)
              (λ e. Extends-refl bufsiz buf q k) (λ e. keep so buf q lib h k))
        | inr other ↦ rw other (Extends-refl bufsiz buf q k)
      ]
  on_access-Extends m preload buf (back none q) keep h k = tt
  on_access-Extends m preload buf crashed keep h k = tt
  on_access-Extends m preload buf stuck keep h k = tt

  on_needed-Extends :
      (m : ℕ) (preload : Bytes → Bytes → Proc → Walked) (needed buf : Bytes) (p : Proc)
      → Keeps m preload
      → m ≤ length buf
      → length buf < bufsiz
      → Extends bufsiz buf (on_needed needs access is_lib bufsiz preload needed buf p)
  unfolding on_needed
  on_needed-Extends m preload needed buf p keep h k =
      if_intro (Extends bufsiz buf) (is_absolute needed) (walked buf p) _
        (λ e. Extends-refl bufsiz buf p k)
        λ e. on_access-Extends m preload buf (access needed p) keep h k

  and_then-Extends :
      (m : ℕ) (buf : Bytes) (r : Walked) (k : Bytes → Proc → Walked)
      → m ≤ length buf
      → Extends bufsiz buf r
      → ((b : Bytes) (q : Proc) → m ≤ length b → length b < bufsiz → Extends bufsiz b (k b q))
      → Extends bufsiz buf (and_then r k)
  and_then-Extends m buf (walked b q) k h (more, e, f) next =
      Extends-trans bufsiz buf b more (k b q) e
        (next b q (omega (arith, ap length e, length-append buf more)) f)
  and_then-Extends m buf (failed q) k h e next = tt
  and_then-Extends m buf lost k h e next = tt
  and_then-Extends m buf exhausted k h e next = e

  each_needed-Extends :
      (m : ℕ) (preload : Bytes → Bytes → Proc → Walked) (l : List Bytes) (buf : Bytes) (p : Proc)
      → Keeps m preload
      → m ≤ length buf
      → length buf < bufsiz
      → Extends bufsiz buf (each_needed needs access is_lib bufsiz preload l buf p)
  unfolding each_needed
  each_needed-Extends m preload [] buf p keep h k = Extends-refl bufsiz buf p k
  each_needed-Extends m preload (needed ∷ l) buf p keep h k =
      and_then-Extends m buf _ _ h (on_needed-Extends m preload needed buf p keep h k)
        λ b q i j. each_needed-Extends m preload l b q keep i j

  on_needs-Extends :
      (m : ℕ) (preload : Bytes → Bytes → Proc → Walked) (o : Option Bytes) (buf : Bytes) (p : Proc)
      → Keeps m preload
      → m ≤ length buf
      → length buf < bufsiz
      → Extends bufsiz buf (on_needs needs access is_lib bufsiz preload o buf p)
  on_needs-Extends m preload none buf p keep h k = tt
  on_needs-Extends m preload (some needed) buf p keep h k =
      each_needed-Extends m preload (strtok colon needed) buf p keep h k

  lib-ne-nil : (so : Bytes) → is_lib [] ≡ false → is_lib (basename so) ≡ true → 0 < length so
  unfolding basename
  lib-ne-nil [] named lib = cc
  lib-ne-nil (c ∷ so) named lib = omega arith

  on_room-Extends :
      (m : ℕ) (buf path : Bytes) (p : Proc) (r : Reply Bytes) (k : Bytes → Walked)
      → m ≤ suc (length buf)
      → 0 < length path
      → Joins bufsiz buf path r
      → ((b : Bytes) → m ≤ length b → length b < bufsiz → Extends bufsiz b (k b))
      → Extends bufsiz buf (on_room needs access is_lib bufsiz p r k)
  on_room-Extends m buf path p (refuse e) k h n j next = tt
  on_room-Extends m buf path p (reply b) k h n (more, e, f, g) next =
      Extends-trans bufsiz buf b more (k b) e
        (next b (omega (arith, ap length e, length-append buf more)) f)

  module _ (named : is_lib [] ≡ false) where
    preload_needed-Extends :
        (fuel : ℕ) (path buf : Bytes) (p : Proc)
        → is_lib (basename path) ≡ true
        → bufsiz ≤ fuel + length buf
        → length buf < bufsiz
        → Extends bufsiz buf (preload_needed needs access is_lib bufsiz fuel path buf p)
    unfolding preload_needed
    preload_needed-Extends zero path buf p lib h k = absurd (omega arith)
    preload_needed-Extends (suc fuel) path buf p lib h k =
        on_room-Extends (bufsiz - fuel) buf path p (path_strncat buf path bufsiz) _ (omega arith)
          (lib-ne-nil path named lib) (path_strncat-Joins buf path bufsiz k)
          λ b i j.
            on_needs-Extends (bufsiz - fuel) _ (needs path) b p
              (λ so c q l m n. preload_needed-Extends fuel so c q l (omega arith) n) i j

    -- Whatever the libraries need, one another in a cycle or not: with as much fuel as the buffer
    -- has bytes, the walk of __ldso_preload_executable ends. The list that it gives begins with what
    -- stood in the buffer, the library of iamroot, and is shorter than the buffer; the empty name is
    -- not that of a library.
    pub preload_executable-Extends :
        (path buf : Bytes) (p : Proc)
        → length buf < bufsiz
        → Extends bufsiz buf (preload_executable needs access is_lib bufsiz bufsiz path buf p)
    unfolding preload_executable
    preload_executable-Extends path buf p k =
        on_needs-Extends 0 _ (needs path) buf p
          (λ so c q l m n. preload_needed-Extends bufsiz so c q l (omega arith) n) (omega arith) k
