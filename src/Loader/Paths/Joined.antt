-- ===== src/Loader/Paths/Joined.antt =====
-- The path names in a list that __path_strncat has made.
use iamroot.Base.{
  ℕ, suc, ◌+◌, ◌-◌, ◌≡◌, ◌∙◌, sym, ap, refl, true, false, not, List, [], ◌∷◌, ◌++◌, append-nil,
  ◌==◌, ltb, if_intro, length, inl, inr, Bool-cases, arith,
}
use iamroot.Base.Bytes.{Bytes}
use iamroot.Base.Errno.{Reply, reply, refuse}
use iamroot.Path.Text.{is_nil}
use iamroot.Identity.Groups.{goes_on, push, tokens}
use iamroot.Loader.Paths.{colon, path_strncat}

push-Cons : (c : ℕ) (s : List Bytes) → (w : Bytes) × (ws : List Bytes) × (push c s ≡ w ∷ ws)
push-Cons c [] = (c ∷ [], [], refl)
push-Cons c (w ∷ s) = (c ∷ w, s, refl)

tokens-Cons :
    (delim c : ℕ) (s : Bytes)
    → (c == delim) ≡ false
    → (w : Bytes) × (ws : List Bytes) × (tokens delim (c ∷ s) ≡ w ∷ ws)
unfolding tokens
tokens-Cons delim c s e = elim (Bool-cases (goes_on delim s)) [
  | inl g ↦ rw (e, g) (push-Cons c (tokens delim s))
  | inr g ↦ rw (e, g) (c ∷ [], tokens delim s, refl)
]

push-append :
    (c : ℕ) (s y : List Bytes) (w : Bytes) (ws : List Bytes)
    → s ≡ w ∷ ws
    → push c (s ++ y) ≡ push c s ++ y
push-append c s y w ws e = rw e refl

tokens-skip :
    (delim c : ℕ) (s : Bytes) → (c == delim) ≡ true → tokens delim (c ∷ s) ≡ tokens delim s
unfolding tokens
tokens-skip delim c s e = rw e refl

-- The last byte of a name
tokens-last :
    (delim c : ℕ) (s : Bytes)
    → (c == delim) ≡ false
    → goes_on delim s ≡ false
    → tokens delim (c ∷ s) ≡ (c ∷ []) ∷ tokens delim s
unfolding tokens
tokens-last delim c s e g = rw (e, g) refl

tokens-push :
    (delim c : ℕ) (s : Bytes)
    → (c == delim) ≡ false
    → goes_on delim s ≡ true
    → tokens delim (c ∷ s) ≡ push c (tokens delim s)
unfolding tokens
tokens-push delim c s e g = rw (e, g) refl

ends : (b delim : ℕ) → (b == delim) ≡ true → not (b == delim) ≡ false
ends b delim e = rw e refl

continues : (b delim : ℕ) → (b == delim) ≡ false → not (b == delim) ≡ true
continues b delim e = rw e refl

-- The names of two lists with a colon between them
pub tokens-append :
    (delim : ℕ) (s t : Bytes) → tokens delim (s ++ delim ∷ t) ≡ tokens delim s ++ tokens delim t
tokens-append delim [] t =
    let d : (delim == delim) ≡ true = ground arith in
    tokens-skip delim delim t d ∙ unfold tokens in refl
tokens-append delim (c ∷ []) t =
    let d : (delim == delim) ≡ true = ground arith in
    elim (Bool-cases (c == delim)) [
      | inl e ↦
          tokens-skip delim c (delim ∷ t) e
          ∙ tokens-append delim [] t
          ∙ ap (λ l. l ++ tokens delim t) (sym (tokens-skip delim c [] e))
      | inr e ↦
          tokens-last delim c (delim ∷ t) e (ends delim delim d)
          ∙ ap (λ l. (c ∷ []) ∷ l) (tokens-append delim [] t)
          ∙ ap (λ l. l ++ tokens delim t) (sym (tokens-last delim c [] e refl))
    ]
tokens-append delim (c ∷ b ∷ s) t =
    let rest = tokens-append delim (b ∷ s) t in
    elim (Bool-cases (c == delim)) [
      | inl e ↦
          tokens-skip delim c (b ∷ s ++ delim ∷ t) e
          ∙ rest
          ∙ ap (λ l. l ++ tokens delim t) (sym (tokens-skip delim c (b ∷ s) e))
      | inr e ↦ elim (Bool-cases (b == delim)) [
        | inl g ↦
            tokens-last delim c (b ∷ s ++ delim ∷ t) e (ends b delim g)
            ∙ ap (λ l. (c ∷ []) ∷ l) rest
            ∙ ap (λ l. l ++ tokens delim t) (sym (tokens-last delim c (b ∷ s) e (ends b delim g)))
        | inr g ↦
            let (w, ws, first) = tokens-Cons delim b s g in
            tokens-push delim c (b ∷ s ++ delim ∷ t) e (continues b delim g)
            ∙ ap (push c) rest
            ∙ push-append c (tokens delim (b ∷ s)) (tokens delim t) w ws first
            ∙ ap (λ l. l ++ tokens delim t)
                (sym (tokens-push delim c (b ∷ s) e (continues b delim g)))
      ]
    ]

-- A name has no colon.
abbrev pub IsName : ℕ → Bytes → Type 0
IsName delim [] = Unit
IsName delim (c ∷ s) = ((c == delim) ≡ false) × IsName delim s

pub IsName-append :
    (delim : ℕ) (s t : Bytes) → IsName delim s → IsName delim t → IsName delim (s ++ t)
IsName-append delim [] t h k = k
IsName-append delim (c ∷ s) t (e, h) k = (e, IsName-append delim s t h k)

pub tokens-name :
    (delim : ℕ) (s : Bytes) → is_nil s ≡ false → IsName delim s → tokens delim s ≡ s ∷ []
tokens-name delim [] n h = ground arith
tokens-name delim (c ∷ []) n (e, h) = tokens-last delim c [] e refl ∙ unfold tokens in refl
tokens-name delim (c ∷ b ∷ s) n (e, (g, h)) =
    tokens-push delim c (b ∷ s) e (continues b delim g)
    ∙ ap (push c) (tokens-name delim (b ∷ s) refl (g, h))

-- What tokens gives are names, of which none is empty.
abbrev pub AllNames : ℕ → List Bytes → Type 0
AllNames delim [] = Unit
AllNames delim (w ∷ ws) = (is_nil w ≡ false) × IsName delim w × AllNames delim ws

AllNames-push :
    (delim c : ℕ) (ws : List Bytes)
    → (c == delim) ≡ false
    → AllNames delim ws
    → AllNames delim (push c ws)
AllNames-push delim c [] e h = (refl, (e, tt), tt)
AllNames-push delim c (w ∷ ws) e (n, k, h) = (refl, (e, k), h)

pub tokens-AllNames : (delim : ℕ) (s : Bytes) → AllNames delim (tokens delim s)
unfolding tokens
tokens-AllNames delim [] = tt
tokens-AllNames delim (c ∷ s) =
    let rest = tokens-AllNames delim s in
    elim (Bool-cases (c == delim)) [
      | inl e ↦ rw e rest
      | inr e ↦ elim (Bool-cases (goes_on delim s)) [
        | inl g ↦ rw (e, g) (AllNames-push delim c (tokens delim s) e rest)
        | inr g ↦ rw (e, g) (refl, (e, tt), rest)
      ]
    ]

-- What __path_strncat gives has the names of both lists.
abbrev pub Has : List Bytes → Reply Bytes → Type 0
Has names (refuse e) = Unit
Has names (reply s) = tokens colon s ≡ names

pub path_strncat-Has :
    (dst src : Bytes) (dstsiz : ℕ)
    → Has (tokens colon dst ++ tokens colon src) (path_strncat dst src dstsiz)
unfolding path_strncat tokens
path_strncat-Has [] src dstsiz =
    if_intro (Has (tokens colon src)) (ltb (dstsiz - 0 - 1) (length src + 0)) _ _ (λ e. tt)
      λ e. refl
path_strncat-Has (c ∷ dst) [] dstsiz =
    if_intro (Has (tokens colon (c ∷ dst) ++ [])) (ltb (dstsiz - suc (length dst) - 1) (0 + 1)) _ _
      (λ e. tt)
      λ e. ap (tokens colon) (append-nil (c ∷ dst)) ∙ sym (append-nil (tokens colon (c ∷ dst)))
path_strncat-Has (c ∷ dst) (d ∷ src) dstsiz =
    if_intro (Has (tokens colon (c ∷ dst) ++ tokens colon (d ∷ src)))
      (ltb (dstsiz - suc (length dst) - 1) (suc (length src) + 1)) _ _ (λ e. tt)
      λ e. tokens-append colon (c ∷ dst) (d ∷ src)
