-- ===== src/Script/Line.antt =====
-- The words of the first line of a script, and what __interpreter_script makes of a buffer with them.
use iamroot.Base.{
  ℕ, ◌+◌, ◌-◌, ◌≡◌, ◌∙◌, refl, ap, sym, Bool, true, false, not, List, [], ◌∷◌, ◌++◌, append_assoc,
  ◌==◌, ltb, if◌then◌else◌, inl, inr, Bool-cases, Option, none, some, length, drop, length-append,
  drop-append, arith,
}
use iamroot.Base.Bytes.{Bytes}
use iamroot.Path.Text.{is_nil}
use iamroot.Script.{is_blank, is_word, byte_of, get, found, text_of, arguments}
use iamroot.Script.Copy.{unblanked, word, behind_word, snoc, length-snoc, get-append}

-- The interpreter, an optional argument and the path name of the script, by the words of what stands
-- behind #!
abbrev pub words_of : Bytes → Bytes → Option (List Bytes)
words_of path t =
    let w = word (unblanked t) in
    let a = word (unblanked (behind_word (unblanked t))) in
    if is_nil w then none else if is_nil a then some (w ∷ path ∷ []) else some (w ∷ a ∷ path ∷ [])

not_null : (c : ℕ) → is_word c ≡ true → (c == 0) ≡ false
unfolding is_word
not_null c h = ground arith

text_of-word : (u rest : Bytes) → text_of (word u ++ 0 ∷ rest) ≡ word u
unfolding text_of
text_of-word [] rest = refl
text_of-word (c ∷ u) rest = elim (Bool-cases (is_word c)) [
  | inl e ↦ rw e (rw (not_null c e) (ap (λ l. c ∷ l) (text_of-word u rest)))
  | inr e ↦ rw e refl
]

pub unblanked-first : (t : Bytes) → is_blank (byte_of (unblanked t)) ≡ false
unfolding byte_of is_blank
unblanked-first [] = refl
unblanked-first (c ∷ t) = elim (Bool-cases (is_blank c)) [
  | inl e ↦ rw e (unblanked-first t)
  | inr e ↦ rw e e
]

pub behind_word-first : (u : Bytes) → is_word (byte_of (behind_word u)) ≡ false
unfolding byte_of is_word
behind_word-first [] = refl
behind_word-first (c ∷ u) = elim (Bool-cases (is_word c)) [
  | inl e ↦ rw e (behind_word-first u)
  | inr e ↦ rw e e
]

-- Without a word, nothing is taken.
pub wordless : (u : Bytes) → word u ≡ [] → behind_word u ≡ u
wordless [] h = refl
wordless (c ∷ u) h = elim (Bool-cases (is_word c)) [
  | inl e ↦ absurd (filled (rw e at h))
  | inr e ↦ rw e refl
]
  where
    filled : c ∷ word u ≡ [] → ⊥
    filled k = ground arith

-- Neither blanks nor a word
pub no_word :
    (r : Bytes)
    → is_blank (byte_of r) ≡ false
    → is_word (byte_of r) ≡ false
    → word (unblanked r) ≡ []
unfolding byte_of
no_word [] b w = refl
no_word (c ∷ r) b w = rw b (rw w refl)

length-nil : (w : Bytes) → ltb (length w) 1 ≡ is_nil w
length-nil [] = refl
length-nil (c ∷ w) = ground arith

not_less : (n : ℕ) → ltb n n ≡ false
not_less n = ground arith

-- The buffer holds one word.
pub one_word :
    (path u rest : Bytes)
    → arguments path (found (length (word u ++ 0 ∷ []) - 1) ((word u ++ 0 ∷ []) ++ rest))
      ≡ (if is_nil (word u) then none else some (word u ∷ path ∷ []))
unfolding arguments
one_word path u rest =
    rw (snoc (word u) 0 rest)
      (rw (text_of-word u rest, size) (rw (length-nil (word u), not_less (length (word u))) refl))
  where
    size : length (word u ++ 0 ∷ []) - 1 ≡ length (word u)
    size = omega (arith, length-snoc (word u) 0)

-- The byte behind the null byte, and the text from there on
byte_behind : (w t : Bytes) → get ((w ++ 0 ∷ []) ++ t) (length w + 1) ≡ byte_of t
byte_behind w t = ap (get ((w ++ 0 ∷ []) ++ t)) (sym (length-snoc w 0)) ∙ get-append (w ++ 0 ∷ []) t

drop_behind : (w t : Bytes) → drop (length w + 1) ((w ++ 0 ∷ []) ++ t) ≡ t
drop_behind w t =
    ap (λ n. drop n ((w ++ 0 ∷ []) ++ t)) (sym (length-snoc w 0)) ∙ drop-append (w ++ 0 ∷ []) t

first_byte : (v rest : Bytes) → (byte_of (word v ++ 0 ∷ rest) == 0) ≡ is_nil (word v)
unfolding byte_of
first_byte [] rest = refl
first_byte (c ∷ v) rest = elim (Bool-cases (is_word c)) [
  | inl e ↦ rw e (not_null c e)
  | inr e ↦ rw e refl
]

-- The buffer holds two words, or one and an empty one.
pub two_words :
    (path u v rest : Bytes)
    → arguments path (
        found
          (length (((word u ++ 0 ∷ []) ++ word v) ++ 0 ∷ []) - 1)
          ((((word u ++ 0 ∷ []) ++ word v) ++ 0 ∷ []) ++ rest))
      ≡ (if is_nil (word v) then some (word u ∷ path ∷ []) else some (word u ∷ word v ∷ path ∷ []))
unfolding arguments
two_words path u v rest = rw (memory) (
    rw (ap text_of (snoc (word u) 0 (word v ++ 0 ∷ rest)) ∙ text_of-word u (word v ++ 0 ∷ rest)) (
      rw (byte_behind (word u) (word v ++ 0 ∷ rest), drop_behind (word u) (word v ++ 0 ∷ rest))
        (rw (first_byte v rest, text_of-word v rest, some_length, longer)
          (branches (is_nil (word v))))))
  where
    memory :
        (((word u ++ 0 ∷ []) ++ word v) ++ 0 ∷ []) ++ rest
        ≡ (word u ++ 0 ∷ []) ++ (word v ++ 0 ∷ rest)
    memory =
        snoc ((word u ++ 0 ∷ []) ++ word v) 0 rest
        ∙ append_assoc (word u ++ 0 ∷ []) (word v) (0 ∷ rest)

    size : length (((word u ++ 0 ∷ []) ++ word v) ++ 0 ∷ []) ≡ length (word u) + length (word v) + 2
    size = omega (
      arith,
      length-snoc ((word u ++ 0 ∷ []) ++ word v) 0,
      length-append (word u ++ 0 ∷ []) (word v),
      length-snoc (word u) 0,
    )

    some_length : ltb (length (((word u ++ 0 ∷ []) ++ word v) ++ 0 ∷ []) - 1) 1 ≡ false
    some_length = ground (arith, size)

    longer : ltb (length (word u)) (length (((word u ++ 0 ∷ []) ++ word v) ++ 0 ∷ []) - 1) ≡ true
    longer = ground (arith, size)

    branches :
        (b : Bool)
        → (if not b then some (word u ∷ word v ∷ path ∷ []) else some (word u ∷ path ∷ []))
          ≡ (if b then some (word u ∷ path ∷ []) else some (word u ∷ word v ∷ path ∷ []))
    branches true = refl
    branches false = refl
