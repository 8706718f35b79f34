-- ===== src/Path/Sanitize/Laws.antt =====
-- Lemmas on the three loops of `__path_sanitize` of path_resolution.c.
use iamroot.Base.{
  ℕ, ◌≤◌, ◌≡◌, refl, sym, ap, ◌∙◌, true, false, ◌||◌, [], ◌∷◌, ◌++◌, append_assoc, arith, ◌==◌,
  length, length-append, if_intro, reverse, last?-snoc,
}
use mathlib.Core.List.{reverse-append, reverse-reverse}
use iamroot.Base.Bytes.{Bytes, slash, dot}
use iamroot.Path.Text.{is_nil, ends_in_slash, is_slash}
use iamroot.Path.Sanitize.{strip_leading, strip_dots, strip_slashes, path_sanitize}

-- Every byte is a dot or a slash.
abbrev pub Dots : Bytes → Type 0
Dots [] = Unit
Dots (c ∷ s) = ((c == dot || c == slash) ≡ true) × Dots s

Dots-append : (s t : Bytes) → Dots s → Dots t → Dots (s ++ t)
Dots-append [] t h k = k
Dots-append (c ∷ s) t h k = (h.0, Dots-append s t h.1 k)

Dots-reverse : (s : Bytes) → Dots s → Dots (reverse s)
Dots-reverse [] h = tt
Dots-reverse (c ∷ s) h =
    rw (reverse-append (c ∷ []) s) (Dots-append (reverse s) (c ∷ []) (Dots-reverse s h.1) (h.0, tt))

-- What a text has in front of another one is dots and slashes, and the other one is not empty.
pub record Drops (s t : Bytes) : Type 0 where
  pub front : Bytes
  pub split : s ≡ front ++ t
  pub dots : Dots front
  pub kept : is_nil t ≡ false

Drops-refl : (c : ℕ) (s : Bytes) → Drops (c ∷ s) (c ∷ s)
Drops-refl c s = record { front = []; split = refl; dots = tt; kept = refl }

Drops-more : (f s t : Bytes) → Dots f → Drops s t → Drops (f ++ s) t
Drops-more f s t h d = record {
  front = f ++ d.front;
  split = ap (λ r. f ++ r) d.split ∙ sym (append_assoc f d.front t);
  dots = Dots-append f d.front h d.dots;
  kept = d.kept;
}

pub strip_leading-Drops : (c : ℕ) (s : Bytes) → Drops (c ∷ s) (strip_leading (c ∷ s))
unfolding strip_leading
strip_leading-Drops a [] = Drops-refl a []
strip_leading-Drops a (b ∷ []) = Drops-refl a (b ∷ [])
strip_leading-Drops a (b ∷ c ∷ []) = Drops-refl a (b ∷ c ∷ [])
strip_leading-Drops a (b ∷ c ∷ d ∷ s) =
    if_intro (Drops (a ∷ b ∷ c ∷ d ∷ s)) _ _ _
      (λ h. Drops-more (a ∷ b ∷ []) _ _ (ground arith) (strip_leading-Drops c (d ∷ s)))
      (λ _. Drops-refl a _)

strip_dots-Drops : (c : ℕ) (s : Bytes) → Drops (c ∷ s) (strip_dots (c ∷ s))
unfolding strip_dots
strip_dots-Drops a [] = Drops-refl a []
strip_dots-Drops a (b ∷ []) = Drops-refl a (b ∷ [])
strip_dots-Drops a (b ∷ c ∷ s) =
    if_intro (Drops (a ∷ b ∷ c ∷ s)) _ _ _
      (λ h. Drops-more (a ∷ b ∷ []) _ _ (ground arith) (strip_dots-Drops c s)) (λ _. Drops-refl a _)

strip_slashes-Drops : (c : ℕ) (s : Bytes) → Drops (c ∷ s) (strip_slashes (c ∷ s))
unfolding strip_slashes
strip_slashes-Drops a [] = Drops-refl a []
strip_slashes-Drops a (b ∷ s) =
    if_intro (Drops (a ∷ b ∷ s)) _ _ _
      (λ h. Drops-more (a ∷ []) _ _ (ground arith) (strip_slashes-Drops b s)) (λ _. Drops-refl a _)

Drops-trans : (s t u : Bytes) → Drops s t → Drops t u → Drops s u
Drops-trans s t u d e = rw d.split (Drops-more d.front t u d.dots e)

pub strip_tail-Drops : (s : Bytes) → is_nil s ≡ false → Drops s (strip_slashes (strip_dots s))
strip_tail-Drops [] h = cc
strip_tail-Drops (c ∷ s) h =
    Drops-trans (c ∷ s) (strip_dots (c ∷ s)) _ (strip_dots-Drops c s)
      (slashes (strip_dots (c ∷ s)) (strip_dots-Drops c s).kept)
  where
    slashes : (t : Bytes) → is_nil t ≡ false → Drops t (strip_slashes t)
    slashes [] k = cc
    slashes (b ∷ t) k = strip_slashes-Drops b t

pub is_nil-reverse : (s : Bytes) → is_nil s ≡ false → is_nil (reverse s) ≡ false
is_nil-reverse [] h = cc
is_nil-reverse (c ∷ s) h = rw (reverse-append (c ∷ []) s) (is_nil-snoc (reverse s) c)
  where
    is_nil-snoc : (s : Bytes) (c : ℕ) → is_nil (s ++ c ∷ []) ≡ false
    is_nil-snoc [] c = refl
    is_nil-snoc (b ∷ s) c = refl

-- A path name is its sanitized form with dots and slashes in front of it and behind it: no other
-- byte is lost or moved, and a path name that is not empty does not become empty.
pub path_sanitize-splits :
    (path : Bytes)
    → is_nil path ≡ false
    → (front : Bytes) × (back : Bytes) × (path ≡ front ++ path_sanitize path ++ back)
      × Dots front
      × Dots back
      × (is_nil (path_sanitize path) ≡ false)
unfolding path_sanitize
path_sanitize-splits [] h = cc
path_sanitize-splits (c ∷ s) h =
    let l = strip_leading (c ∷ s) in
    let lead : Drops (c ∷ s) l = strip_leading-Drops c s in
    let tail : Drops (reverse l) (strip_slashes (strip_dots (reverse l))) =
      strip_tail-Drops (reverse l) (is_nil-reverse l lead.kept) in
    (
      lead.front,
      reverse tail.front,
      lead.split
          ∙ ap (λ r. lead.front ++ r)
              (sym (reverse-reverse l) ∙ ap reverse tail.split ∙ reverse-append tail.front _)
          ∙ sym (append_assoc lead.front _ _),
      lead.dots,
      Dots-reverse tail.front tail.dots,
      is_nil-reverse _ tail.kept,
    )

ends_in_slash-reverse : (s : Bytes) → ends_in_slash (reverse s) ≡ is_slash s
ends_in_slash-reverse [] = refl
ends_in_slash-reverse (c ∷ s) =
    rw (reverse-append (c ∷ []) s) (ground (arith, last?-snoc (reverse s) c))

length-reverse : (s : Bytes) → length (reverse s) ≡ length s
length-reverse [] = refl
length-reverse (c ∷ s) =
    rw (reverse-append (c ∷ []) s)
      (omega (arith, length-append (reverse s) (c ∷ []), length-reverse s))

strip_slashes-trimmed :
    (s : Bytes) → is_slash (strip_slashes s) ≡ true → length (strip_slashes s) ≡ 1
unfolding strip_slashes
strip_slashes-trimmed [] h = cc
strip_slashes-trimmed (a ∷ []) h = refl
strip_slashes-trimmed (a ∷ b ∷ s) h = ground (arith, strip_slashes-trimmed (b ∷ s))

-- A sanitized path name ends in a slash only if it is one byte long.
pub path_sanitize-trimmed :
    (path : Bytes) → ends_in_slash (path_sanitize path) ≡ true → length (path_sanitize path) ≡ 1
unfolding path_sanitize
path_sanitize-trimmed [] h = cc
path_sanitize-trimmed (c ∷ s) h =
    let t = strip_dots (reverse (strip_leading (c ∷ s))) in
    length-reverse (strip_slashes t)
    ∙ strip_slashes-trimmed t (sym (ends_in_slash-reverse (strip_slashes t)) ∙ h)

pub length-path_sanitize-le : (path : Bytes) → length (path_sanitize path) ≤ length path
length-path_sanitize-le [] = unfold path_sanitize in omega arith
length-path_sanitize-le (c ∷ s) =
    let (front, back, e, _, _, _) = path_sanitize-splits (c ∷ s) refl in
    omega (
      arith,
      ap length e,
      length-append (front ++ path_sanitize (c ∷ s)) back,
      length-append front (path_sanitize (c ∷ s)),
    )
