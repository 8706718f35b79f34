-- ===== src/Path/Canonical.antt =====
-- Canonical absolute path names, and what the ends of the output buffer of `__realpathat` do to one.
use iamroot.Base.{
  ℕ, ◌≤◌, ◌<◌, ◌≡◌, refl, inl, inr, true, false, [], ◌∷◌, ◌++◌, arith, ◌==◌, length, length-append,
  Bool-cases, append_assoc, last_from, drop_last-snoc,
}
use iamroot.Base.Bytes.{Bytes, codes, slash, streq}
use iamroot.Path.Text.{
  NoSlash, up_to_slash, is_slash, ends_in_slash, is_nil, pop, drop_separator, piece, join,
}

-- A component that names something: it has no slash, and is not empty, . or ..
pub record IsName (c : Bytes) : Type 0 where
  pub no_slash : NoSlash c
  pub not_nil : is_nil c ≡ false
  pub not_dot : streq c (codes ".") ≡ false
  pub not_up : streq c (codes "..") ≡ false

-- /, //, or a canonical path name with one more name on it.
pub data IsCanonical : Bytes → Type 0 where
  top : IsCanonical (slash ∷ [])
  top2 : IsCanonical (slash ∷ slash ∷ [])
  under : {d out : Bytes} (c : Bytes) → IsCanonical d → IsName c → out ≡ join d c → IsCanonical out

up_to_slash-NoSlash : (c : Bytes) → NoSlash c → up_to_slash c ≡ []
unfolding up_to_slash
up_to_slash-NoSlash [] h = refl
up_to_slash-NoSlash (x ∷ c) h = rw (up_to_slash-NoSlash c h.1) (rw h.0)

up_to_slash-append : (xs c : Bytes) → NoSlash c → up_to_slash (xs ++ slash ∷ c) ≡ xs ++ slash ∷ []
unfolding up_to_slash
up_to_slash-append [] c h = rw (up_to_slash-NoSlash c h)
up_to_slash-append (x ∷ []) c h = rw (up_to_slash-NoSlash c h)
up_to_slash-append (x ∷ y ∷ xs) c h = rw (up_to_slash-append (y ∷ xs) c h)

last_from-NoSlash :
    (x : ℕ) (c : Bytes) → (x == slash) ≡ false → NoSlash c → (last_from x c == slash) ≡ false
last_from-NoSlash x [] h k = h
last_from-NoSlash x (y ∷ c) h k = last_from-NoSlash y c k.0 k.1

last_from-append : (x y : ℕ) (xs c : Bytes) → last_from x (xs ++ y ∷ c) ≡ last_from y c
last_from-append x y [] c = refl
last_from-append x y (z ∷ xs) c = last_from-append z y xs c

ends_in_slash-append :
    (xs c : Bytes) → is_nil c ≡ false → NoSlash c → ends_in_slash (xs ++ c) ≡ false
ends_in_slash-append xs [] n h = cc
ends_in_slash-append [] (y ∷ c) n h = last_from-NoSlash y c h.0 h.1
ends_in_slash-append (x ∷ xs) (y ∷ c) n h =
    rw (last_from-append x y xs c) (last_from-NoSlash y c h.0 h.1)

is_slash-append : (d s : Bytes) → is_slash d ≡ true → is_slash (d ++ s) ≡ true
is_slash-append [] s h = cc
is_slash-append (x ∷ d) s h = h

-- A canonical path name begins with a slash.
pub IsCanonical-is_slash : {out : Bytes} → IsCanonical out → is_slash out ≡ true
unfolding join
IsCanonical-is_slash top = refl
IsCanonical-is_slash top2 = refl
IsCanonical-is_slash (under {d} c h n e) = rw e (is_slash-append d _ (IsCanonical-is_slash h))

piece-no_separator : (d c : Bytes) → ends_in_slash d ≡ true → piece d c ≡ c
unfolding piece
piece-no_separator [] c h = refl
piece-no_separator (x ∷ d) c h = rw h

piece-separator :
    (d c : Bytes) → ends_in_slash d ≡ false → is_slash d ≡ true → piece d c ≡ slash ∷ c
unfolding piece
piece-separator [] c h k = cc
piece-separator (x ∷ d) c h k = rw h

-- What ends in a name ends in no slash.
ends_in_slash-join : (d c : Bytes) → is_slash d ≡ true → IsName c → ends_in_slash (join d c) ≡ false
unfolding join
ends_in_slash-join d c h n = elim (Bool-cases (ends_in_slash d)) [
  | inl e ↦ rw (piece-no_separator d c e) (ends_in_slash-append d c n.not_nil n.no_slash)
  | inr e ↦ rw (piece-separator d c e h) (ends_in_slash-snoc d c n)
]
  where
    ends_in_slash-snoc : (d c : Bytes) → IsName c → ends_in_slash (d ++ slash ∷ c) ≡ false
    ends_in_slash-snoc d c n =
        rw (← append_assoc d (slash ∷ []) c)
          (ends_in_slash-append (d ++ slash ∷ []) c n.not_nil n.no_slash)

length-join : (d c : Bytes) → is_slash d ≡ true → is_nil c ≡ false → 2 ≤ length (join d c)
unfolding join
length-join [] c h k = cc
length-join (x ∷ d) [] h k = cc
length-join (x ∷ d) (y ∷ c) h k = elim (Bool-cases (ends_in_slash (x ∷ d))) [
  | inl e ↦ rw (piece-no_separator (x ∷ d) (y ∷ c) e) (omega (arith, length-append d (y ∷ c)))
  | inr e ↦
      rw (piece-separator (x ∷ d) (y ∷ c) e h) (omega (arith, length-append d (slash ∷ y ∷ c)))
]

pop-append : (d c : Bytes) → NoSlash c → 2 ≤ length d → pop (d ++ slash ∷ c) ≡ d
unfolding pop drop_separator
pop-append d c h k =
    rw (up_to_slash-append d c h, drop_last-snoc d slash)
      (ground (arith, length-append d (slash ∷ [])))

pop-join_under :
    (d c : Bytes)
    → is_slash d ≡ true
    → ends_in_slash d ≡ false
    → 2 ≤ length d
    → IsName c
    → pop (join d c) ≡ d
unfolding join
pop-join_under d c h e k n = rw (piece-separator d c e h) (pop-append d c n.no_slash k)

-- The `up` branch takes off the last name of a canonical path name.
pub pop-join : {d : Bytes} (c : Bytes) → IsCanonical d → IsName c → pop (join d c) ≡ d
unfolding pop join piece drop_separator
pop-join c top n = rw (up_to_slash-append [] c n.no_slash)
pop-join c top2 n = rw (up_to_slash-append (slash ∷ []) c n.no_slash)
pop-join {d} c (under {d = d'} c' h m e) n =
    pop-join_under d c (IsCanonical-is_slash (under c' h m e))
      (rw e (ends_in_slash-join d' c' (IsCanonical-is_slash h) m))
      (rw e (length-join d' c' (IsCanonical-is_slash h) m.not_nil)) n

pub pop-IsCanonical : {out : Bytes} → IsCanonical out → IsCanonical (pop out)
unfolding pop up_to_slash drop_separator
pop-IsCanonical top = top
pop-IsCanonical top2 = top2
pop-IsCanonical (under c h n e) = rw (e, pop-join c h n) h

pub length-IsCanonical : {out : Bytes} → IsCanonical out → 0 < length out
length-IsCanonical {out} h = length-is_slash out (IsCanonical-is_slash h)
  where
    length-is_slash : (s : Bytes) → is_slash s ≡ true → 0 < length s
    length-is_slash [] h = cc
    length-is_slash (x ∷ s) h = omega arith
