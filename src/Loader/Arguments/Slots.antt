-- ===== src/Loader/Arguments/Slots.antt =====
-- Reads and writes of an array, and what is left in it when the arguments have been moved up.
use iamroot.Base.{
  ℕ, zero, suc, ◌+◌, ◌-◌, ◌<◌, ◌≤◌, ◌≡◌, ◌∙◌, ap, refl, true, ◌&&◌, List, [], ◌∷◌, ◌++◌, map,
  Option, none, some, ltb, leb, if◌then◌else◌, length, get_elem?, drop, inl, inr, Bool-cases, arith,
  ◌==◌,
}
use iamroot.Base.Bytes.{Bytes}
use iamroot.Path.Realpath.{ok}
use iamroot.Loader.Arguments.{Slots, set, load, store, shift_up, strings}

pub length-set : (s : Slots) (i : ℕ) (v : Option Bytes) → length (set s i v) ≡ length s
length-set [] i v = refl
length-set (x ∷ s) zero v = refl
length-set (x ∷ s) (suc i) v = ap suc (length-set s i v)

pub get_elem?-set :
    (s : Slots) (i j : ℕ) (v : Option Bytes)
    → i < length s
    → get_elem? (set s i v) j ≡ (if i == j then some v else get_elem? s j)
get_elem?-set [] i j v h = absurd (omega arith)
get_elem?-set (x ∷ s) zero zero v h = refl
get_elem?-set (x ∷ s) zero (suc j) v h = ground arith
get_elem?-set (x ∷ s) (suc i) zero v h = ground arith
get_elem?-set (x ∷ s) (suc i) (suc j) v h = ground (arith, get_elem?-set s i j v (omega arith))

pub get_elem?-drop : (n : ℕ) (s : Slots) (j : ℕ) → get_elem? (drop n s) j ≡ get_elem? s (n + j)
get_elem?-drop zero s j = ap (get_elem? s) (omega arith)
get_elem?-drop (suc n) [] j = refl
get_elem?-drop (suc n) (x ∷ s) j =
    let e : suc n + j ≡ suc (n + j) = omega arith in rw e (get_elem?-drop n s j)

pub get_elem?-in :
    (s : Slots) (i : ℕ) → i < length s → (v : Option Bytes) × (get_elem? s i ≡ some v)
get_elem?-in [] i h = absurd (omega arith)
get_elem?-in (x ∷ s) zero h = (x, refl)
get_elem?-in (x ∷ s) (suc i) h = get_elem?-in s i (omega arith)

-- What stands at j after the arguments 1 to k have been moved up
abbrev pub moved : ℕ → ℕ → Slots → ℕ → Option (Option Bytes)
moved k shift s j =
    if ltb shift j && leb j (shift + k) then get_elem? s (j - shift) else get_elem? s j

pub record Moved (k shift : ℕ) (s t : Slots) : Type 0 where
  pub size : length t ≡ length s
  pub at : (j : ℕ) → get_elem? t j ≡ moved k shift s j

moved-set :
    (k shift : ℕ) (s : Slots) (v : Option Bytes) (j : ℕ)
    → suc k + shift < length s
    → get_elem? s (suc k) ≡ some v
    → moved k shift (set s (suc k + shift) v) j ≡ moved (suc k) shift s j
moved-set k shift s v j h e = elim (Bool-cases (j == suc k + shift)) [
  | inl same ↦ ground (
    arith,
    get_elem?-set s (suc k + shift) j v h,
    get_elem?-set s (suc k + shift) (j - shift) v h,
    e,
    ap (get_elem? s)
        (let q : j ≡ suc k + shift → j - shift ≡ suc k = λ p. omega arith in q (ground arith)),
  )
  | inr other ↦ ground (
    arith,
    get_elem?-set s (suc k + shift) j v h,
    get_elem?-set s (suc k + shift) (j - shift) v h,
  )
]

pub shift_up-Moved :
    (k shift : ℕ) (s : Slots)
    → shift + k < length s
    → (t : Slots) × (shift_up k shift s ≡ ok t) × Moved k shift s t
unfolding shift_up load store
shift_up-Moved zero shift s h = (s, refl, record { size = refl; at = λ j. ground arith })
shift_up-Moved (suc k) shift s h =
    let (v, e) = get_elem?-in s (suc k) (omega arith) in
    let room : ltb (suc k + shift) (length s) ≡ true = ground arith in
    let size = length-set s (suc k + shift) v in
    let (t, run, m) = shift_up-Moved k shift (set s (suc k + shift) v) (omega arith) in
    (
      t,
      rw (e, room) run,
      record { size = m.size ∙ size; at = λ j. m.at j ∙ moved-set k shift s v j (omega arith) e },
    )

-- An array that begins with these strings and NULL
pub strings-at :
    (l : List Bytes) (s : Slots)
    → ((j : ℕ) → j ≤ length l → get_elem? s j ≡ get_elem? (map some l ++ none ∷ []) j)
    → strings s ≡ ok l
unfolding strings
strings-at [] [] h = cc (h 0 (omega arith))
strings-at [] (none ∷ s) h = refl
strings-at [] (some a ∷ s) h = cc (h 0 (omega arith))
strings-at (x ∷ l) [] h = cc (h 0 (omega arith))
strings-at (x ∷ l) (none ∷ s) h = cc (h 0 (omega arith))
strings-at (x ∷ l) (some a ∷ s) h =
    let e : a ≡ x = cc (h 0 (omega arith)) in
    rw (strings-at l s (λ j p. h (suc j) (omega arith)), e) refl

pub strings-append :
    (l : List Bytes) (s : Slots) (r : List Bytes)
    → strings s ≡ ok r
    → strings (map some l ++ s) ≡ ok (l ++ r)
unfolding strings
strings-append [] s r h = h
strings-append (x ∷ l) s r h = rw (strings-append l s r h) refl
