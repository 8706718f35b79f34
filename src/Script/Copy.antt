-- ===== src/Script/Copy.antt =====
-- The loops of __interpreter_script_hashbang over its buffer, by the words of the text.
use iamroot.Base.{
  ℕ, zero, suc, ◌+◌, ◌≤◌, ◌≡◌, ◌∙◌, refl, ap, sym, false, [], ◌∷◌, ◌++◌, append_assoc, append-nil,
  if◌then◌else◌, inl, inr, Bool-cases, length, length-append, drop-append, arith,
}
use iamroot.Base.Bytes.{Bytes}
use iamroot.Script.{is_blank, is_word, byte_of, get, put, skip_blanks, Cursor, copy_word}

-- A text without the blanks in front, its first word, and what stands behind that
abbrev pub unblanked : Bytes → Bytes
unblanked [] = []
unblanked (c ∷ t) = let rest = unblanked t in if is_blank c then rest else c ∷ t

abbrev pub word : Bytes → Bytes
word [] = []
word (c ∷ t) = let rest = word t in if is_word c then c ∷ rest else []

abbrev pub behind_word : Bytes → Bytes
behind_word [] = []
behind_word (c ∷ t) = let rest = behind_word t in if is_word c then rest else c ∷ t

pub get-append : (front : Bytes) (t : Bytes) → get (front ++ t) (length front) ≡ byte_of t
unfolding get
get-append front t = ap byte_of (drop-append front t)

pub put-append :
    (front : Bytes) (g v : ℕ) (t : Bytes) → put (front ++ g ∷ t) (length front) v ≡ front ++ v ∷ t
unfolding put
put-append [] g v t = refl
put-append (c ∷ front) g v t = ap (λ l. c ∷ l) (put-append front g v t)

abbrev pub blanks : Bytes → Bytes
blanks [] = []
blanks (c ∷ t) = let rest = blanks t in if is_blank c then c ∷ rest else []

pub blanks-unblanked : (t : Bytes) → t ≡ blanks t ++ unblanked t
blanks-unblanked [] = refl
blanks-unblanked (c ∷ t) = elim (Bool-cases (is_blank c)) [
  | inl e ↦ rw e (ap (λ l. c ∷ l) (blanks-unblanked t))
  | inr e ↦ rw e refl
]

-- One byte moves from one part of a text to the part in front of it.
pub snoc : (front : Bytes) (c : ℕ) (t : Bytes) → (front ++ c ∷ []) ++ t ≡ front ++ c ∷ t
snoc front c t = append_assoc front (c ∷ []) t

pub length-snoc : (front : Bytes) (c : ℕ) → length (front ++ c ∷ []) ≡ length front + 1
length-snoc front c = length-append front (c ∷ []) ∙ omega arith

not_blank_end : is_blank (byte_of []) ≡ false
unfolding is_blank byte_of
not_blank_end = refl

pub skip_blanks-blanks :
    (fuel : ℕ) (front t : Bytes)
    → length t ≤ fuel
    → skip_blanks fuel (front ++ t) (length front) ≡ length front + length (blanks t)
unfolding skip_blanks byte_of
skip_blanks-blanks zero front [] h = omega arith
skip_blanks-blanks zero front (c ∷ t) h = absurd (omega arith)
skip_blanks-blanks (suc fuel) front [] h = rw (get-append front []) (rw not_blank_end (omega arith))
skip_blanks-blanks (suc fuel) front (c ∷ t) h =
    let next =
      sym (λ i. skip_blanks fuel (snoc front c t i) (length-snoc front c i))
      ∙ skip_blanks-blanks fuel (front ++ c ∷ []) t (omega arith) in
    rw (get-append front (c ∷ t)) (elim (Bool-cases (is_blank c)) [
      | inl e ↦ rw e (next ∙ omega (arith, length-snoc front c))
      | inr e ↦ rw e (omega arith)
    ])

-- A buffer with what was written, bytes that are left over, and what is still to be read
abbrev pub at : Bytes → Bytes → Bytes → Cursor
at out gap t = record { mem = out ++ (gap ++ t); s = length (out ++ gap); d = length out }

-- A byte is copied.
step :
    (out : Bytes) (g : ℕ) (gap : Bytes) (c : ℕ) (t : Bytes)
    → ◌≡◌ {A = Cursor}
        (record {
          mem = put (out ++ ((g ∷ gap) ++ c ∷ t)) (length out) c;
          s = length (out ++ g ∷ gap) + 1;
          d = length out + 1;
        })
        (at (out ++ c ∷ []) (gap ++ c ∷ []) t)
step out g gap c t = λ i. record { mem = memory i; s = place i; d = sym (length-snoc out c) i }
  where
    memory :
        put (out ++ ((g ∷ gap) ++ c ∷ t)) (length out) c ≡ (out ++ c ∷ []) ++ ((gap ++ c ∷ []) ++ t)
    memory =
        put-append out g c (gap ++ c ∷ t)
        ∙ sym (snoc out c ((gap ++ c ∷ []) ++ t) ∙ ap (λ l. out ++ c ∷ l) (snoc gap c t))

    place : length (out ++ g ∷ gap) + 1 ≡ length ((out ++ c ∷ []) ++ (gap ++ c ∷ []))
    place = omega (
      arith,
      length-append out (g ∷ gap),
      length-append (out ++ c ∷ []) (gap ++ c ∷ []),
      length-snoc out c,
      length-snoc gap c,
    )

-- The loop that copies a word leaves it behind what was written, with as many bytes left over.
abbrev pub Copied : ℕ → Bytes → Bytes → Cursor → Type 0
Copied room out t k =
    (gap : Bytes) × (length gap ≡ room) × (k ≡ at (out ++ word t) gap (behind_word t))

not_word_end : is_word (byte_of []) ≡ false
unfolding is_word byte_of
not_word_end = refl

pub get-at : (out gap t : Bytes) → get (out ++ (gap ++ t)) (length (out ++ gap)) ≡ byte_of t
get-at out gap t =
    ap (λ m. get m (length (out ++ gap))) (sym (append_assoc out gap t)) ∙ get-append (out ++ gap) t

stays : (out gap t : Bytes) → at out gap t ≡ at (out ++ []) gap t
stays out gap t = ap (λ o. at o gap t) (sym (append-nil out))

-- What follows a byte that is copied
Copied-snoc :
    (fuel : ℕ) (out : Bytes) (g : ℕ) (gap : Bytes) (c : ℕ) (t : Bytes)
    → ((o : Bytes) (a : ℕ) (b : Bytes)
        → Copied (length (a ∷ b)) o t (copy_word fuel (at o (a ∷ b) t)))
    → (x : Bytes) × (length x ≡ suc (length gap))
      × (copy_word fuel (record {
        mem = put (out ++ ((g ∷ gap) ++ c ∷ t)) (length out) c;
        s = length (out ++ g ∷ gap) + 1;
        d = length out + 1;
      })
          ≡ at (out ++ c ∷ word t) x (behind_word t))
Copied-snoc fuel out g [] c t rest =
    let (x, l, k) = rest (out ++ c ∷ []) c [] in
    (
      x,
      l,
      ap (copy_word fuel) (step out g [] c t)
          ∙ k
          ∙ ap (λ o. at o x (behind_word t)) (snoc out c (word t)),
    )
Copied-snoc fuel out g (b ∷ gap) c t rest =
    let (x, l, k) = rest (out ++ c ∷ []) b (gap ++ c ∷ []) in
    (
      x,
      l ∙ omega (arith, length-snoc gap c),
      ap (copy_word fuel) (step out g (b ∷ gap) c t)
          ∙ k
          ∙ ap (λ o. at o x (behind_word t)) (snoc out c (word t)),
    )

pub copy_word-Copied :
    (fuel : ℕ) (out : Bytes) (g : ℕ) (gap t : Bytes)
    → length t ≤ fuel
    → Copied (length (g ∷ gap)) out t (copy_word fuel (at out (g ∷ gap) t))
unfolding copy_word byte_of
copy_word-Copied zero out g gap [] h = (g ∷ gap, refl, stays out (g ∷ gap) [])
copy_word-Copied zero out g gap (c ∷ t) h = absurd (omega arith)
copy_word-Copied (suc fuel) out g gap [] h =
    rw (get-at out (g ∷ gap) []) (rw not_word_end (g ∷ gap, refl, stays out (g ∷ gap) []))
copy_word-Copied (suc fuel) out g gap (c ∷ t) h =
    let (gap2, l, k) =
      Copied-snoc fuel out g gap c t (λ o a b. copy_word-Copied fuel o a b t (omega arith)) in
    rw (get-at out (g ∷ gap) (c ∷ t)) (elim (Bool-cases (is_word c)) [
      | inl e ↦ rw e (gap2, l, k)
      | inr e ↦ rw e (g ∷ gap, refl, stays out (g ∷ gap) (c ∷ t))
    ])
