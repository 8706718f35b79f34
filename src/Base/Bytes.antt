-- ===== src/Base/Bytes.antt =====
-- C strings as lists of bytes without the terminating null byte, and the string helpers of
-- iamroot.h and string.h that the program calls on them.
use Prim.Native.Char.{code}
use Prim.Native.String.{String}
use Prim.Native.Nat.{ℕ, zero, suc, ◌-◌, min}
use mathlib.Core.Path.{◌≡◌, refl}
use mathlib.Core.Logic.{◌↔◌}
use mathlib.Core.Bool.{Bool, true, false, ◌&&◌}
use mathlib.Core.List.{List, [], ◌∷◌, ◌++◌}
use native.Mathlib.Omega.{arith}
use iamroot.Base.Tests.{◌==◌}
use iamroot.Base.Lists.{length, take, drop}

abbrev pub Bytes : Type 0
Bytes = List ℕ

-- The bytes of a literal: its code points, which are bytes since every literal used is ASCII.
abbrev pub codes : String → Bytes
codes String.[] = []
codes (String.◌∷◌ c s) = code c ∷ codes s

abbrev pub slash : ℕ
slash = 47

abbrev pub dot : ℕ
dot = 46

-- `PATH_MAX` and `NAME_MAX` of Linux.
abbrev pub path_max : ℕ
path_max = 4096

abbrev pub name_max : ℕ
name_max = 255

-- strnlen(s, n)
abbrev pub strnlen : Bytes → ℕ → ℕ
strnlen s n = min (length s) n

-- strncmp(a, b, n) == 0
unfoldable pub strncmp_eq : ℕ → Bytes → Bytes → Bool
strncmp_eq zero a b = true
strncmp_eq (suc n) [] [] = true
strncmp_eq (suc n) [] (b ∷ bs) = false
strncmp_eq (suc n) (a ∷ as') [] = false
strncmp_eq (suc n) (a ∷ as') (b ∷ bs) = a == b && strncmp_eq n as' bs

-- streq(a, b)
unfoldable pub streq : Bytes → Bytes → Bool
streq [] [] = true
streq [] (b ∷ bs) = false
streq (a ∷ as') [] = false
streq (a ∷ as') (b ∷ bs) = a == b && streq as' bs

-- __strleq(s1, s2): s1 begins with s2, of which at most PATH_MAX bytes are read.
unfoldable pub strleq : Bytes → Bytes → Bool
unfolding strncmp_eq
strleq s1 s2 = strncmp_eq (strnlen s2 path_max) s1 s2

-- __strneq(s, literal): s begins with the literal.
unfoldable pub strneq : Bytes → Bytes → Bool
unfolding strncmp_eq
strneq s literal = strncmp_eq (length literal) s literal

-- _strncpy(s1, s2, n1): what the buffer of n1 bytes holds afterwards.
abbrev pub strncpy : Bytes → ℕ → Bytes
strncpy s n = take (n - 1) s

pub streq_refl : (a : Bytes) → streq a a ≡ true
unfolding streq
streq_refl [] = refl
streq_refl (a ∷ as') = ground (arith, streq_refl as')

pub streq→eq : (a b : Bytes) → streq a b ≡ true → a ≡ b
unfolding streq
streq→eq [] [] h = refl
streq→eq [] (b ∷ bs) h = ground arith
streq→eq (a ∷ as') [] h = ground arith
streq→eq (a ∷ as') (b ∷ bs) h = ground (arith, streq→eq as' bs)

pub streq_iff : (a b : Bytes) → (streq a b ≡ true) ↔ (a ≡ b)
streq_iff a b = (streq→eq a b, λ e. ground (arith, streq_refl a))

pub strncmp_eq-append : (p t : Bytes) → strncmp_eq (length p) (p ++ t) p ≡ true
unfolding strncmp_eq
strncmp_eq-append [] t = refl
strncmp_eq-append (c ∷ p) t = ground (arith, strncmp_eq-append p t)

pub strncmp_eq→append :
    (s p : Bytes) → strncmp_eq (length p) s p ≡ true → s ≡ p ++ drop (length p) s
unfolding strncmp_eq
strncmp_eq→append s [] h = refl
strncmp_eq→append [] (c ∷ p) h = ground arith
strncmp_eq→append (a ∷ s) (c ∷ p) h = ground (arith, strncmp_eq→append s p)
