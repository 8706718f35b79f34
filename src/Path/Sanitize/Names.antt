-- ===== src/Path/Sanitize/Names.antt =====
-- What `__path_sanitize` of path_resolution.c leaves of a path name, and what it strips.
use iamroot.Base.{
  ◌≡◌, ◌∙◌, refl, sym, ap, Bool, true, false, not, ◌&&◌, List, [], ◌∷◌, ◌++◌, arith, ◌==◌, ltb,
  length, if_intro, if◌then◌else◌, reverse, append-nil, Bool-cases, inl, inr,
}
use mathlib.Core.List.{reverse-append, reverse-reverse}
use iamroot.Base.Bytes.{Bytes, slash, dot}
use iamroot.Path.Text.{is_nil, ends_in_slash, is_slash}
use iamroot.Identity.Groups.{tokens}
use iamroot.Loader.Paths.Joined.{tokens-append}
use iamroot.Path.Sanitize.{strip_leading, strip_dots, strip_slashes, path_sanitize}
use iamroot.Path.Sanitize.Laws.{
  strip_leading-Drops, strip_tail-Drops, is_nil-reverse, path_sanitize-trimmed,
}

abbrev is_dot : Bytes → Bool
is_dot [] = false
is_dot (c ∷ []) = c == dot
is_dot (c ∷ d ∷ s) = false

abbrev but_dots : List Bytes → List Bytes
but_dots [] = []
but_dots (name ∷ l) = let rest = but_dots l in if is_dot name then rest else name ∷ rest

-- The components of a path name, other than the dots
abbrev pub components : Bytes → List Bytes
components path = but_dots (tokens slash path)

-- A path name of more than three bytes that begins with ./ and no further slash
abbrev pub is_dotted : Bytes → Bool
is_dotted (a ∷ b ∷ c ∷ d ∷ s) = a == dot && b == slash && not (c == slash)
is_dotted s = false

but_dots-append : (l m : List Bytes) → but_dots (l ++ m) ≡ but_dots l ++ but_dots m
but_dots-append [] m = refl
but_dots-append (name ∷ l) m =
    if_intro (λ r. r ≡ (if is_dot name then but_dots l else name ∷ but_dots l) ++ but_dots m)
      (is_dot name) _ _ (λ e. rw e (but_dots-append l m))
      (λ e. rw e (ap (λ r. name ∷ r) (but_dots-append l m)))

components-append : (s t : Bytes) → components (s ++ slash ∷ t) ≡ components s ++ components t
components-append s t =
    ap but_dots (tokens-append slash s t) ∙ but_dots-append (tokens slash s) (tokens slash t)

components-dot : components (dot ∷ []) ≡ []
unfolding tokens
components-dot = refl

components-leading : (s : Bytes) → components (dot ∷ slash ∷ s) ≡ components s
components-leading s = components-append (dot ∷ []) s ∙ ap (λ l. l ++ components s) components-dot

strip_leading-components : (s : Bytes) → components (strip_leading s) ≡ components s
unfolding strip_leading
strip_leading-components [] = refl
strip_leading-components (a ∷ []) = refl
strip_leading-components (a ∷ b ∷ []) = refl
strip_leading-components (a ∷ b ∷ c ∷ []) = refl
strip_leading-components (a ∷ b ∷ c ∷ d ∷ s) =
    if_intro (λ r. components r ≡ components (a ∷ b ∷ c ∷ d ∷ s))
      (a == dot && b == slash && not (c == slash)) _ _
      (λ e.
        let x : a ≡ dot = ground (arith, e) in
        let y : b ≡ slash = ground (arith, e) in
        strip_leading-components (c ∷ d ∷ s) ∙ sym (components-leading (c ∷ d ∷ s)) ∙ λ i.
        components (sym x i ∷ sym y i ∷ c ∷ d ∷ s))
      λ e. refl

strip_leading-is_slash : (s : Bytes) → is_slash (strip_leading s) ≡ is_slash s
unfolding strip_leading
strip_leading-is_slash [] = refl
strip_leading-is_slash (a ∷ []) = refl
strip_leading-is_slash (a ∷ b ∷ []) = refl
strip_leading-is_slash (a ∷ b ∷ c ∷ []) = refl
strip_leading-is_slash (a ∷ b ∷ c ∷ d ∷ s) =
    if_intro (λ r. is_slash r ≡ is_slash (a ∷ b ∷ c ∷ d ∷ s))
      (a == dot && b == slash && not (c == slash)) _ _
      (λ e. strip_leading-is_slash (c ∷ d ∷ s) ∙ ground (arith, e)) λ e. refl

strip_leading-is_dotted : (s : Bytes) → is_dotted (strip_leading s) ≡ false
unfolding strip_leading
strip_leading-is_dotted [] = refl
strip_leading-is_dotted (a ∷ []) = refl
strip_leading-is_dotted (a ∷ b ∷ []) = refl
strip_leading-is_dotted (a ∷ b ∷ c ∷ []) = refl
strip_leading-is_dotted (a ∷ b ∷ c ∷ d ∷ s) =
    if_intro (λ r. is_dotted r ≡ false) (a == dot && b == slash && not (c == slash)) _ _
      (λ e. strip_leading-is_dotted (c ∷ d ∷ s)) (λ e. e)

-- The components of a text that is read backwards
abbrev backwards : Bytes → List Bytes
backwards s = components (reverse s)

backwards-slash : (s : Bytes) → backwards (slash ∷ s) ≡ backwards s
unfolding tokens
backwards-slash s =
    ap components (reverse-append (slash ∷ []) s)
    ∙ components-append (reverse s) []
    ∙ append-nil (components (reverse s))

backwards-dot : (s : Bytes) → backwards (dot ∷ slash ∷ s) ≡ backwards s
backwards-dot s =
    ap components (reverse-append (dot ∷ slash ∷ []) s)
    ∙ components-append (reverse s) (dot ∷ [])
    ∙ ap (λ l. components (reverse s) ++ l) components-dot
    ∙ append-nil (components (reverse s))

strip_dots-backwards : (s : Bytes) → backwards (strip_dots s) ≡ backwards s
unfolding strip_dots
strip_dots-backwards [] = refl
strip_dots-backwards (a ∷ []) = refl
strip_dots-backwards (a ∷ b ∷ []) = refl
strip_dots-backwards (a ∷ b ∷ c ∷ s) =
    if_intro (λ r. backwards r ≡ backwards (a ∷ b ∷ c ∷ s)) (a == dot && b == slash) _ _
      (λ e.
        let x : a ≡ dot = ground (arith, e) in
        let y : b ≡ slash = ground (arith, e) in
        strip_dots-backwards (c ∷ s) ∙ sym (backwards-dot (c ∷ s)) ∙ λ i.
        backwards (sym x i ∷ sym y i ∷ c ∷ s))
      λ e. refl

strip_slashes-backwards : (s : Bytes) → backwards (strip_slashes s) ≡ backwards s
unfolding strip_slashes
strip_slashes-backwards [] = refl
strip_slashes-backwards (a ∷ []) = refl
strip_slashes-backwards (a ∷ b ∷ s) =
    if_intro (λ r. backwards r ≡ backwards (a ∷ b ∷ s)) (a == slash) _ _
      (λ e.
        let x : a ≡ slash = ground (arith, e) in
        strip_slashes-backwards (b ∷ s) ∙ sym (backwards-slash (b ∷ s)) ∙ λ i.
        backwards (sym x i ∷ b ∷ s))
      λ e. refl

is_slash-append : (s t : Bytes) → is_nil s ≡ false → is_slash (s ++ t) ≡ is_slash s
is_slash-append [] t n = cc
is_slash-append (c ∷ s) t n = refl

is_dotted-append : (s t : Bytes) → is_dotted (s ++ t) ≡ false → is_dotted s ≡ false
is_dotted-append [] t e = refl
is_dotted-append (a ∷ []) t e = refl
is_dotted-append (a ∷ b ∷ []) t e = refl
is_dotted-append (a ∷ b ∷ c ∷ []) t e = refl
is_dotted-append (a ∷ b ∷ c ∷ d ∷ s) t e = e

-- What the two loops at the end leave of a text that is not empty
tail_of : Bytes → Bytes
tail_of l = reverse (strip_slashes (strip_dots (reverse l)))

tail_of-components : (l : Bytes) → components (tail_of l) ≡ components l
unfolding tail_of
tail_of-components l =
    strip_slashes-backwards (strip_dots (reverse l))
    ∙ strip_dots-backwards (reverse l)
    ∙ ap components (reverse-reverse l)

tail_of-Prefix :
    (l : Bytes)
    → is_nil l ≡ false
    → (back : Bytes) × (l ≡ tail_of l ++ back) × (is_nil (tail_of l) ≡ false)
unfolding tail_of
tail_of-Prefix l n =
    let d = strip_tail-Drops (reverse l) (is_nil-reverse l n) in
    (
      reverse d.front,
      sym (reverse-reverse l) ∙ ap reverse d.split ∙ reverse-append d.front _,
      is_nil-reverse _ d.kept,
    )

-- Of every path name: sanitizing leaves the components other than dots, in their order, and leaves it
-- absolute or relative; and what is left ends in no slash, unless it is one byte long, and, if it is
-- longer than three bytes, does not begin with ./ and something other than a slash.
pub path_sanitize-components :
    (path : Bytes)
    → (components (path_sanitize path) ≡ components path)
      × (is_slash (path_sanitize path) ≡ is_slash path)
      × ((ends_in_slash (path_sanitize path) && ltb 1 (length (path_sanitize path))) ≡ false)
      × (is_dotted (path_sanitize path) ≡ false)
unfolding path_sanitize tail_of
path_sanitize-components [] = (refl, refl, refl, refl)
path_sanitize-components (c ∷ s) =
    let l = strip_leading (c ∷ s) in
    let (back, whole, kept) = tail_of-Prefix l (strip_leading-Drops c s).kept in
    (
      tail_of-components l ∙ strip_leading-components (c ∷ s),
      sym (is_slash-append (tail_of l) back kept)
          ∙ ap is_slash (sym whole)
          ∙ strip_leading-is_slash (c ∷ s),
      trimmed (path_sanitize (c ∷ s)) (path_sanitize-trimmed (c ∷ s)),
      is_dotted-append (tail_of l) back
          (ap is_dotted (sym whole) ∙ strip_leading-is_dotted (c ∷ s)),
    )
  where
    trimmed :
        (t : Bytes)
        → (ends_in_slash t ≡ true → length t ≡ 1)
        → (ends_in_slash t && ltb 1 (length t)) ≡ false
    trimmed t h = elim (Bool-cases (ends_in_slash t)) [
      | inl e ↦ let n = h e in rw e (ground arith)
      | inr e ↦ rw e refl
    ]
