-- ===== src/Path/Sanitize/Below.antt =====
-- A path name below a root directory keeps the root directory when it is sanitized.
use iamroot.Base.{
  ℕ, ◌≡◌, refl, sym, ap, ◌∙◌, true, false, ◌&&◌, [], ◌∷◌, ◌++◌, append-nil, append_assoc, arith,
  ◌==◌, length, if_intro, reverse, drop, drop-append,
}
use mathlib.Core.List.{reverse-append, reverse-reverse}
use iamroot.Base.Bytes.{Bytes, slash, dot}
use iamroot.Path.Sanitize.Laws.{Drops, strip_tail-Drops, is_nil-reverse}
use iamroot.Path.Text.{is_slash}
use iamroot.Path.Sanitize.{strip_leading, strip_dots, strip_slashes, path_sanitize}

-- Read backwards, the text has no slash and no /. at its front.
abbrev pub Solid : Bytes → Type 0
Solid [] = ⊥
Solid (a ∷ []) = ⊥
Solid (a ∷ b ∷ r) = ((a == slash) ≡ false) × ((a == dot && b == slash) ≡ false)

-- Stripping the end of a path name does not reach into a solid beginning.
data Behind (r : Bytes) (s : Bytes) : Type 0 where
  behind : (kept : Bytes) → s ≡ kept ++ r → Behind r s

kept-more : (x : ℕ) {r s : Bytes} → Behind r s → Behind r (x ∷ s)
kept-more x (behind kept e) = behind (x ∷ kept) (ap (λ l. x ∷ l) e)

Behind-all : (s r : Bytes) → Behind r (s ++ r)
Behind-all s r = behind s refl

strip_dots-Behind : (r s : Bytes) → Solid r → Behind r (strip_dots (s ++ r))
unfolding strip_dots
strip_dots-Behind [] s h = absurd h
strip_dots-Behind (a ∷ []) s h = absurd h
strip_dots-Behind (a ∷ b ∷ []) [] h = behind [] refl
strip_dots-Behind (a ∷ b ∷ c ∷ r) [] h = rw h.1 (behind [] refl)
strip_dots-Behind (a ∷ b ∷ r) (x ∷ []) h =
    if_intro (Behind (a ∷ b ∷ r)) (x == dot && a == slash) _ _ (λ e. absurd (ground (arith, h.0)))
      (λ _. Behind-all (x ∷ []) (a ∷ b ∷ r))
strip_dots-Behind (a ∷ b ∷ r) (x ∷ y ∷ []) h =
    if_intro (Behind (a ∷ b ∷ r)) (x == dot && y == slash) _ _
      (λ _. strip_dots-Behind (a ∷ b ∷ r) [] h) (λ _. Behind-all (x ∷ y ∷ []) (a ∷ b ∷ r))
strip_dots-Behind (a ∷ b ∷ r) (x ∷ y ∷ z ∷ s) h =
    if_intro (Behind (a ∷ b ∷ r)) (x == dot && y == slash) _ _
      (λ _. strip_dots-Behind (a ∷ b ∷ r) (z ∷ s) h) (λ _. Behind-all (x ∷ y ∷ z ∷ s) (a ∷ b ∷ r))

strip_slashes-Behind : (r s : Bytes) → Solid r → Behind r (strip_slashes (s ++ r))
unfolding strip_slashes
strip_slashes-Behind [] s h = absurd h
strip_slashes-Behind (a ∷ []) s h = absurd h
strip_slashes-Behind (a ∷ b ∷ r) [] h = rw h.0 (behind [] refl)
strip_slashes-Behind (a ∷ b ∷ r) (x ∷ []) h =
    if_intro (Behind (a ∷ b ∷ r)) (x == slash) _ _ (λ _. strip_slashes-Behind (a ∷ b ∷ r) [] h)
      (λ _. Behind-all (x ∷ []) (a ∷ b ∷ r))
strip_slashes-Behind (a ∷ b ∷ r) (x ∷ y ∷ s) h =
    if_intro (Behind (a ∷ b ∷ r)) (x == slash) _ _ (λ _. strip_slashes-Behind (a ∷ b ∷ r) (y ∷ s) h)
      (λ _. Behind-all (x ∷ y ∷ s) (a ∷ b ∷ r))

strip_tail-Behind :
    (r : Bytes) (s : Bytes) → Solid r → Behind r s → Behind r (strip_slashes (strip_dots s))
strip_tail-Behind r s h (behind kept e) = rw e (again (strip_dots-Behind r kept h))
  where
    again : {t : Bytes} → Behind r t → Behind r (strip_slashes t)
    again (behind k e) = rw e (strip_slashes-Behind r k h)

-- An absolute path name loses nothing at its front.
strip_leading-absolute : (s : Bytes) → is_slash s ≡ true → strip_leading s ≡ s
unfolding strip_leading
strip_leading-absolute [] h = refl
strip_leading-absolute (a ∷ []) h = refl
strip_leading-absolute (a ∷ b ∷ []) h = refl
strip_leading-absolute (a ∷ b ∷ c ∷ []) h = refl
strip_leading-absolute (a ∷ b ∷ c ∷ d ∷ s) h = ground arith

-- A root directory: absolute, not /, and sanitized already, with no / and no /. at its end.
pub record IsRoot (root : Bytes) : Type 0 where
  pub absolute : is_slash root ≡ true
  pub solid : Solid (reverse root)

append-cancel : (r s t : Bytes) → r ++ s ≡ r ++ t → s ≡ t
append-cancel r s t e = sym (drop-append r s) ∙ ap (drop (length r)) e ∙ drop-append r t

-- The end of `root ++ path` that is stripped lies in `path`.
below_split :
    (root path t : Bytes)
    → Drops (reverse (root ++ path)) t
    → Behind (reverse root) t
    → (rest : Bytes) × (back : Bytes) × (reverse t ≡ root ++ rest) × (path ≡ rest ++ back)
below_split root path t d (behind kept e) =
    (reverse kept, reverse d.front, kept-whole, append-cancel root _ _ whole)
  where
    kept-whole : reverse t ≡ root ++ reverse kept
    kept-whole =
        ap reverse e
        ∙ reverse-append kept (reverse root)
        ∙ ap (λ r. r ++ reverse kept) (reverse-reverse root)

    whole : root ++ path ≡ root ++ (reverse kept ++ reverse d.front)
    whole =
        sym (reverse-reverse (root ++ path))
        ∙ ap reverse d.split
        ∙ reverse-append d.front t
        ∙ ap (λ r. r ++ reverse d.front) kept-whole
        ∙ append_assoc root (reverse kept) (reverse d.front)

-- Behind a root directory, sanitizing takes off an end of the path name alone.
pub path_sanitize-below :
    (root path : Bytes)
    → IsRoot root
    → (rest : Bytes) × (back : Bytes) × (path_sanitize (root ++ path) ≡ root ++ rest)
      × (path ≡ rest ++ back)
unfolding path_sanitize
path_sanitize-below [] path h = absurd h.solid
path_sanitize-below (c ∷ root) path h = rw (strip_leading-absolute (c ∷ root ++ path) h.absolute) (
    below_split (c ∷ root) path _
      (strip_tail-Drops (reverse (c ∷ root ++ path)) (is_nil-reverse (c ∷ root ++ path) refl))
      (strip_tail-Behind (reverse (c ∷ root)) _ h.solid
        (behind (reverse path) (reverse-append (c ∷ root) path))))

-- A root directory is sanitized already.
pub path_sanitize-IsRoot : (root : Bytes) → IsRoot root → path_sanitize root ≡ root
path_sanitize-IsRoot root h =
    let (rest, back, e, whole) = path_sanitize-below root [] h in
    ap path_sanitize (sym (append-nil root))
    ∙ e
    ∙ ap (λ r. root ++ r) (front_of_nil rest back whole)
    ∙ append-nil root
  where
    front_of_nil : (s t : Bytes) → [] ≡ s ++ t → s ≡ []
    front_of_nil [] t e = refl
    front_of_nil (x ∷ s) t e = cc
