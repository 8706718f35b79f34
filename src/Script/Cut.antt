-- ===== src/Script/Cut.antt =====
-- A word that __interpreter_script_hashbang cuts out of its buffer, with the null byte behind it.
use iamroot.Base.{
  ℕ, suc, ◌≤◌, ◌≡◌, ◌∙◌, ap, sym, subst, [], ◌∷◌, ◌++◌, append_assoc, if_intro, length,
  length-append, arith,
}
use iamroot.Base.Bytes.{Bytes}
use iamroot.Script.{is_blank, put, skip_blanks, Cursor, copy_word, terminate, cut_word}
use iamroot.Script.Copy.{
  unblanked, word, behind_word, blanks, blanks-unblanked, snoc, length-snoc, put-append,
  skip_blanks-blanks, at, Copied, copy_word-Copied,
}

terminate-at :
    (out : Bytes) (g : ℕ) (gap t : Bytes)
    → terminate (at out (g ∷ gap) t) ≡ at (out ++ 0 ∷ []) gap t
unfolding terminate
terminate-at out g gap t =
    λ i. record { mem = memory i; s = place i; d = sym (length-snoc out 0) i }
  where
    memory : put (out ++ ((g ∷ gap) ++ t)) (length out) 0 ≡ (out ++ 0 ∷ []) ++ (gap ++ t)
    memory = put-append out g 0 (gap ++ t) ∙ sym (snoc out 0 (gap ++ t))

    place : length (out ++ g ∷ gap) ≡ length ((out ++ 0 ∷ []) ++ gap)
    place =
        omega
          (arith, length-append out (g ∷ gap), length-append (out ++ 0 ∷ []) gap, length-snoc out 0)

-- The blanks are left over.
skipped :
    (out gap t : Bytes)
    → ◌≡◌ {A = Cursor}
        (record (at out gap t) {
          s = skip_blanks (length (out ++ (gap ++ t))) (out ++ (gap ++ t)) (length (out ++ gap));
        })
        (at out (gap ++ blanks t) (unblanked t))
skipped out gap t = λ i. record { mem = memory i; s = place i; d = length out }
  where
    memory : out ++ (gap ++ t) ≡ out ++ ((gap ++ blanks t) ++ unblanked t)
    memory =
        ap (λ l. out ++ (gap ++ l)) (blanks-unblanked t)
        ∙ ap (λ l. out ++ l) (sym (append_assoc gap (blanks t) (unblanked t)))

    enough : length t ≤ length (out ++ (gap ++ t))
    enough = omega (arith, length-append out (gap ++ t), length-append gap t)

    place :
        skip_blanks (length (out ++ (gap ++ t))) (out ++ (gap ++ t)) (length (out ++ gap))
        ≡ length (out ++ (gap ++ blanks t))
    place =
        ap (λ m. skip_blanks (length (out ++ (gap ++ t))) m (length (out ++ gap)))
          (sym (append_assoc out gap t))
        ∙ skip_blanks-blanks (length (out ++ (gap ++ t))) (out ++ gap) t enough
        ∙ omega (
          arith,
          length-append out gap,
          length-append out (gap ++ blanks t),
          length-append gap (blanks t),
        )

-- A word and its null byte are written, and all but one of the bytes that were left over still are.
abbrev pub Cut : ℕ → Bytes → Bytes → Cursor → Type 0
Cut room out t k =
    (gap : Bytes) × (room ≤ length gap)
    × (k ≡ at ((out ++ word (unblanked t)) ++ 0 ∷ []) gap (behind_word (unblanked t)))

length-unblanked : (t : Bytes) → length (unblanked t) ≤ length t
length-unblanked [] = omega arith
length-unblanked (c ∷ t) =
    if_intro (λ l. length l ≤ suc (length t)) (is_blank c) _ _
      (λ e. omega (arith, length-unblanked t)) (λ e. omega arith)

terminated :
    (out u : Bytes) (room : ℕ) (k : Cursor)
    → Copied (suc room) out u k
    → (gap : Bytes) × (room ≤ length gap)
      × (terminate k ≡ at ((out ++ word u) ++ 0 ∷ []) gap (behind_word u))
terminated out u room k ([], l, e) = absurd (omega arith)
terminated out u room k (g ∷ gap, l, e) =
    (gap, omega arith, ap terminate e ∙ terminate-at (out ++ word u) g gap (behind_word u))

pub cut_word-Cut :
    (out : Bytes) (g : ℕ) (gap t : Bytes) → Cut (length gap) out t (cut_word (at out (g ∷ gap) t))
unfolding cut_word
cut_word-Cut out g gap t =
    subst (λ k. Cut (length gap) out t (terminate (copy_word (length (out ++ ((g ∷ gap) ++ t))) k)))
      (sym (skipped out (g ∷ gap) t))
      (let (rest, l, e) = terminated out (unblanked t) (length (gap ++ blanks t)) _ (
          copy_word-Copied (length (out ++ ((g ∷ gap) ++ t))) out g (gap ++ blanks t) (unblanked t)
            enough) in
        (rest, omega (arith, l, length-append gap (blanks t)), e))
  where
    enough : length (unblanked t) ≤ length (out ++ ((g ∷ gap) ++ t))
    enough =
        omega
          (arith, length-unblanked t, length-append out ((g ∷ gap) ++ t), length-append (g ∷ gap) t)
