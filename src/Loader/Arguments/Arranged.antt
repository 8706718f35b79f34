-- ===== src/Loader/Arguments/Arranged.antt =====
-- What __ldso leaves in the array of the arguments.
use iamroot.Base.{
  ℕ, zero, suc, ◌+◌, ◌-◌, ◌<◌, ◌≤◌, ◌≡◌, ◌∙◌, sym, ap, refl, true, List, [], ◌∷◌, ◌++◌,
  append_assoc, map, Option, none, some, ltb, leb, length, length-append, length-drop, get_elem?,
  drop, inl, inr, Bool-cases, arith, ◌==◌, ==_iff,
}
use iamroot.Base.Bytes.{Bytes}
use iamroot.Path.Realpath.{ok}
use iamroot.Loader.Arguments.{
  Slots, set, store, count_args, Options, total_shift, Frame, finish, arrange, strings,
}
use iamroot.Loader.Arguments.Slots.{
  length-set, get_elem?-set, get_elem?-drop, moved, Moved, shift_up-Moved, strings-at,
  strings-append,
}
use iamroot.Loader.Arguments.Expected.{options_of, environment_of, IsCoherent}
use iamroot.Loader.Arguments.Written.{
  written, set-written, length-written, length-snoc, push_options-written,
}
use iamroot.Loader.Arguments.Counted.{length-options_of, total_shift-le}

count_args-append :
    (l : List Bytes) (rest : Slots) → count_args (map some l ++ none ∷ rest) ≡ ok (length l)
unfolding count_args
count_args-append [] rest = refl
count_args-append (a ∷ l) rest = rw (count_args-append l rest) refl

length-map : (l : List Bytes) → length (map (λ a. some a) l) ≡ length l
length-map [] = refl
length-map (a ∷ l) = ap suc (length-map l)

set-append :
    (l : List Bytes) (s : Slots) (i : ℕ) (v : Option Bytes)
    → set (map some l ++ s) (length l + i) v ≡ map some l ++ set s i v
set-append [] s i v = ap (λ k. set s k v) (omega arith)
set-append (a ∷ l) s i v =
    let e : suc (length l) + i ≡ suc (length l + i) = omega arith in
    rw e (ap (λ t. some a ∷ t) (set-append l s i v))

-- What stands in an array that begins with these strings
at-append :
    (l : List Bytes) (rest : Slots) (j : ℕ)
    → j ≤ length l
    → get_elem? (map some l ++ none ∷ rest) j ≡ get_elem? (map some l ++ none ∷ []) j
at-append [] rest zero h = refl
at-append [] rest (suc j) h = absurd (omega arith)
at-append (a ∷ l) rest zero h = refl
at-append (a ∷ l) rest (suc j) h = at-append l rest j (omega arith)

at-end : (l : List Bytes) → get_elem? (map some l ++ none ∷ []) (length l) ≡ some none
at-end [] = refl
at-end (a ∷ l) = at-end l

ended :
    (tail : List Bytes) (rest : Slots) (j : ℕ)
    → length tail < length rest
    → j ≤ length tail
    → get_elem? rest j ≡ get_elem? (map some tail ++ none ∷ []) j
    → get_elem? (set rest (length tail) none) j ≡ get_elem? (map some tail ++ none ∷ []) j
ended tail rest j h k e =
    let split = get_elem?-set rest (length tail) j none h in
    elim (Bool-cases (length tail == j)) [
      | inl same ↦
          let q : length tail ≡ j = (==_iff (length tail) j).0 same in
          split ∙ rw same (rw (← q) (sym (at-end tail)))
      | inr other ↦ split ∙ rw other e
    ]

finish-written :
    (path : Bytes) (done tail : List Bytes) (t : Slots) (env : List Bytes)
    → length done + suc (length tail) < length t
    → ((j : ℕ)
        → j ≤ length tail
        → get_elem? (drop (suc (length done)) t) j ≡ get_elem? (map some tail ++ none ∷ []) j)
    → (f : Frame) × (finish path (suc (length tail)) (written done t env) ≡ ok f)
      × (strings f.slots ≡ ok (done ++ path ∷ tail))
      × (f.i ≡ length done + suc (length tail))
      × (f.env ≡ env)
unfolding finish store
finish-written path done tail t env h moved_up =
    let size = length-written done t (omega arith) in
    let room : ltb (length done) (length t) ≡ true = ground arith in
    let size2 = length-written (done ++ path ∷ []) t (omega (arith, length-snoc done path)) in
    let n = length-snoc done path in
    let e : set (map some done ++ drop (length done) t) (length done) (some path)
        ≡ map some (done ++ path ∷ []) ++ drop (suc (length done)) t =
      set-written done t path (omega arith) in
    let size3 : length (map some (done ++ path ∷ []) ++ drop (suc (length done)) t) ≡ length t =
      ap length (sym e) ∙ length-set _ (length done) (some path) ∙ size in
    let room2 : ltb (length done + suc (length tail)) (length t) ≡ true = ground arith in
    let rest = drop (suc (length done)) t in
    let left = length-drop (suc (length done)) t in
    let q : length done + suc (length tail) ≡ length (done ++ path ∷ []) + length tail =
      omega arith in
    let last = set (map some (done ++ path ∷ []) ++ rest) (length done + suc (length tail)) none in
    (
      record { slots = last; i = length done + suc (length tail); env = env },
      rw (size, room, e, size3, room2) refl,
      ap strings (
            ap (λ k. set (map some (done ++ path ∷ []) ++ rest) k none) q
            ∙ set-append (done ++ path ∷ []) rest (length tail) none)
          ∙ strings-append (done ++ path ∷ []) _ tail
              (strings-at tail _ λ j p. ended tail rest j (omega arith) p (moved_up j p))
          ∙ ap ok (append_assoc done (path ∷ []) tail),
      refl,
      refl,
    )

moved-behind :
    (k shift : ℕ) (s : Slots) (j : ℕ)
    → j < k
    → moved k shift s (suc shift + j) ≡ get_elem? s (suc j)
moved-behind k shift s j h =
    let above : ltb shift (suc shift + j) ≡ true = ground arith in
    let within : leb (suc shift + j) (shift + k) ≡ true = ground arith in
    let back : suc shift + j - shift ≡ suc j = omega arith in rw (above, within, back) refl

-- Behind the options and the path name stand the arguments as they were.
arguments_behind :
    (o : Options) (argv0 : Bytes) (tail : List Bytes) (rest t : Slots) (j : ℕ)
    → length (options_of o argv0) ≡ total_shift o
    → Moved (suc (length tail)) (total_shift o) (map some (argv0 ∷ tail) ++ none ∷ rest) t
    → j ≤ length tail
    → get_elem? (drop (suc (length (options_of o argv0))) t) j
      ≡ get_elem? (map some tail ++ none ∷ []) j
arguments_behind o argv0 tail rest t j n m h =
    get_elem?-drop (suc (length (options_of o argv0))) t j
    ∙ ap (λ k. get_elem? t (suc k + j)) n
    ∙ m.at (suc (total_shift o) + j)
    ∙ moved-behind (suc (length tail)) (total_shift o) (map some (argv0 ∷ tail) ++ none ∷ rest) j
        (omega arith)
    ∙ at-append tail rest j h

-- __ldso with a loader that can be run itself, or without options: the array of 15 pointers holds all
-- its words, no write passes its end, and what execve reads up to NULL is the loader with its
-- options, the path name, and the arguments behind argv0, as many as __ldso says; what the loader
-- has no option for is set in the environment.
pub arrange-strings :
    (o : Options) (path argv0 : Bytes) (tail : List Bytes) (rest : Slots) (env : List Bytes)
    → IsCoherent o
    → length tail ≤ 3
    → length tail + length rest ≡ 13
    → (f : Frame) × (arrange o path argv0 (map some (argv0 ∷ tail) ++ none ∷ rest) env ≡ ok f)
      × (strings f.slots ≡ ok (options_of o argv0 ++ path ∷ tail))
      × (f.i ≡ length (options_of o argv0 ++ path ∷ tail))
      × (f.env ≡ environment_of o argv0 env)
unfolding arrange
arrange-strings o path argv0 tail rest env c h room =
    let s = map some (argv0 ∷ tail) ++ none ∷ rest in
    let n = length-options_of o argv0 c in
    let small = total_shift-le o c in
    let size : length s ≡ 15 =
      omega (arith, length-append (map some (argv0 ∷ tail)) (none ∷ rest), length-map tail) in
    let (t, run, m) = shift_up-Moved (suc (length tail)) (total_shift o) s (omega arith) in
    let msize = m.size in
    let (f, done, read, count, kept) =
      finish-written path (options_of o argv0) tail t (environment_of o argv0 env) (omega arith)
        (λ j p. arguments_behind o argv0 tail rest t j n m p) in
    (
      f,
      rw
          (
            count_args-append (argv0 ∷ tail) rest,
            run,
            push_options-written o argv0 t env (omega arith),
          )
          done,
      read,
      omega (arith, length-append (options_of o argv0) (path ∷ tail)),
      kept,
    )
