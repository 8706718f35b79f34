-- ===== src/Script/Arguments.antt =====
-- The arguments that __interpreter_script takes out of its buffer are the words of the first line.
use iamroot.Base.{
  ℕ, suc, ◌-◌, ◌≡◌, ◌∙◌, refl, ap, sym, subst, true, false, [], ◌∷◌, ◌++◌, ◌==◌, ltb, if◌then◌else◌,
  inl, inr, Bool-cases, length, arith,
}
use iamroot.Base.Bytes.{Bytes}
use iamroot.Base.Errno.{reply}
use iamroot.Path.Text.{is_nil}
use iamroot.Script.{
  is_blank, is_word, byte_of, get, Cursor, cut_word, cut_line, found, on_content, arguments, Script,
  interpreter_script, interpreter_script_hashbang, on_opened, on_size, on_read,
}
use iamroot.Script.Copy.{unblanked, word, behind_word, at, get-at}
use iamroot.Script.Cut.{Cut, cut_word-Cut}
use iamroot.Script.Line.{
  words_of, unblanked-first, behind_word-first, wordless, no_word, one_word, two_words,
}

is_nil-eq : (w : Bytes) → is_nil w ≡ true → w ≡ []
is_nil-eq [] h = refl
is_nil-eq (c ∷ w) h = ground arith

-- A word stands in front of blanks.
blank-word :
    (t : Bytes)
    → is_blank (byte_of (behind_word (unblanked t))) ≡ true
    → is_nil (word (unblanked t)) ≡ false
blank-word t h = elim (Bool-cases (is_nil (word (unblanked t)))) [
  | inl e ↦ absurd (clash (subst (λ r. is_blank (byte_of r) ≡ true) (wordless _ (is_nil-eq _ e)) h))
  | inr e ↦ e
]
  where
    clash : is_blank (byte_of (unblanked t)) ≡ true → ⊥
    clash k = ground (arith, k, unblanked-first t)

module _ (path t : Bytes) where
  -- The arguments in the buffer are the words.
  Good : Cursor → Type 0
  Good k = arguments path (found (k.d - 1) k.mem) ≡ words_of path t

  Good-two :
      (gap : Bytes)
      → is_blank (byte_of (behind_word (unblanked t))) ≡ true
      → Good (
          at
            (((word (unblanked t) ++ 0 ∷ []) ++ word (unblanked (behind_word (unblanked t))))
              ++ 0 ∷ [])
            gap
            (behind_word (unblanked (behind_word (unblanked t)))))
  unfolding Good
  Good-two gap b =
      two_words path (unblanked t) (unblanked (behind_word (unblanked t))) _
      ∙ rw (blank-word t b) refl

  Good-one :
      (gap : Bytes)
      → is_blank (byte_of (behind_word (unblanked t))) ≡ false
      → Good (at (word (unblanked t) ++ 0 ∷ []) gap (behind_word (unblanked t)))
  unfolding Good
  Good-one gap b =
      one_word path (unblanked t) _
      ∙ rw (no_word (behind_word (unblanked t)) b (behind_word-first (unblanked t))) refl

  second :
      (g : ℕ) (gap : Bytes) (k : Cursor)
      → k ≡ at (word (unblanked t) ++ 0 ∷ []) (g ∷ gap) (behind_word (unblanked t))
      → Good (if is_blank (get k.mem k.s) then cut_word k else k)
  second g gap k e =
      subst (λ k. Good (if is_blank (get k.mem k.s) then cut_word k else k)) (sym e)
        (rw (get-at (word (unblanked t) ++ 0 ∷ []) (g ∷ gap) (behind_word (unblanked t)))
          (elim (Bool-cases (is_blank (byte_of (behind_word (unblanked t))))) [
            | inl b ↦
                let (rest, l, q) =
                  cut_word-Cut (word (unblanked t) ++ 0 ∷ []) g gap (behind_word (unblanked t)) in
                rw b (subst Good (sym q) (Good-two rest b))
            | inr b ↦ rw b (Good-one (g ∷ gap) b)
          ]))

  cut_line-Good : Good (cut_line (35 ∷ 33 ∷ t))
  unfolding cut_line
  cut_line-Good = from (cut_word-Cut [] 35 (33 ∷ []) t)
    where
      from :
          Cut 1 [] t (cut_word (record { mem = 35 ∷ 33 ∷ t; s = 2; d = 0 }))
          → Good (
              if is_blank (
                get
                  (cut_word (record { mem = 35 ∷ 33 ∷ t; s = 2; d = 0 })).mem
                  (cut_word (record { mem = 35 ∷ 33 ∷ t; s = 2; d = 0 })).s)
              then cut_word (cut_word (record { mem = 35 ∷ 33 ∷ t; s = 2; d = 0 }))
              else cut_word (record { mem = 35 ∷ 33 ∷ t; s = 2; d = 0 }))
      from ([], l, e) = absurd (omega arith)
      from (g ∷ gap, l, e) = second g gap _ e

-- A null byte ends the line.
unblanked-null : (x rest : Bytes) → unblanked (x ++ 0 ∷ rest) ≡ unblanked x ++ 0 ∷ rest
unfolding is_blank
unblanked-null [] rest = refl
unblanked-null (c ∷ x) rest = elim (Bool-cases (is_blank c)) [
  | inl e ↦ rw e (unblanked-null x rest)
  | inr e ↦ rw e refl
]

word-null : (x rest : Bytes) → word (x ++ 0 ∷ rest) ≡ word x
unfolding is_word
word-null [] rest = refl
word-null (c ∷ x) rest = elim (Bool-cases (is_word c)) [
  | inl e ↦ rw e (ap (λ l. c ∷ l) (word-null x rest))
  | inr e ↦ rw e refl
]

behind_word-null : (x rest : Bytes) → behind_word (x ++ 0 ∷ rest) ≡ behind_word x ++ 0 ∷ rest
unfolding is_word
behind_word-null [] rest = refl
behind_word-null (c ∷ x) rest = elim (Bool-cases (is_word c)) [
  | inl e ↦ rw e (behind_word-null x rest)
  | inr e ↦ rw e refl
]

words_of-null : (path x rest : Bytes) → words_of path (x ++ 0 ∷ rest) ≡ words_of path x
words_of-null path x rest = rw (unblanked-null x rest) (
    rw (word-null (unblanked x) rest, behind_word-null (unblanked x) rest)
      (rw (unblanked-null (behind_word (unblanked x)) rest)
        (rw (word-null (unblanked (behind_word (unblanked x))) rest) refl)))

from_buffer :
    (path t rest : Bytes)
    → arguments path (
        found
          ((cut_line (35 ∷ 33 ∷ (t ++ 0 ∷ rest))).d - 1)
          (cut_line (35 ∷ 33 ∷ (t ++ 0 ∷ rest))).mem)
      ≡ words_of path t
unfolding Good
from_buffer path t rest = cut_line-Good path (t ++ 0 ∷ rest) ∙ words_of-null path t rest

-- A file that is not empty and whose first bytes are #! and a text: __interpreter_script, which works
-- in place in its buffer, gives the first word of the text, the second one on the same line, if there
-- is one, and the path name, or it fails where there is no word.
pub interpreter_script-words_of :
    (f : Script) (path m t : Bytes) (bufsiz fd size : ℕ)
    → f.opened ≡ reply fd
    → f.st_size ≡ reply (suc size)
    → f.read (length m - 1) ≡ reply (35 ∷ 33 ∷ t)
    → interpreter_script f path bufsiz m ≡ words_of path t
unfolding interpreter_script interpreter_script_hashbang on_opened on_size on_read on_content get
    byte_of
interpreter_script-words_of f path m t bufsiz fd size o z r =
    rw (o, z) (rw (nonempty, r) (rw long (from_buffer path t _)))
  where
    long : ltb (length (35 ∷ 33 ∷ t)) 2 ≡ false
    long = ground arith

    nonempty : (suc size == 0) ≡ false
    nonempty = ground arith
