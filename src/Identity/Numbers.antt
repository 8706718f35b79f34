-- ===== src/Identity/Numbers.antt =====
-- The numbers in the environment: `%u` of _snprintf and strtoul(s, NULL, 0) of the C library.
use iamroot.Base.{
  ℕ, zero, suc, ◌+◌, ◌-◌, ◌*◌, ◌/◌, ◌%◌, ◌<◌, ◌≤◌, ◌≡◌, ◌∙◌, sym, ap, refl, Bool, true, false, ◌&&◌,
  ◌||◌, [], ◌∷◌, ◌++◌, append_assoc, append-nil, ltb, leb, ◌==◌, if◌then◌else◌, inl, inr,
  Bool-cases, arith, length, length-append,
}
use iamroot.Base.Bytes.{Bytes}
use iamroot.Path.Text.{is_nil}
use iamroot.Base.Errno.{Reply, reply, refuse, erange}

-- Decimal digits, as many as are allowed
digits : ℕ → ℕ → Bytes
digits zero n = []
digits (suc f) n =
    let front = digits f (n / 10) in if ltb n 10 then (48 + n) ∷ [] else front ++ (48 + n % 10) ∷ []

-- "%u" of 32 bits
unfoldable pub print_unsigned : ℕ → Bytes
unfolding digits
print_unsigned n = digits 10 n

-- The value of a digit, in a base of at most 36
digit_value : ℕ → ℕ
digit_value c =
    if leb 48 c && leb c 57
    then c - 48
    else if leb 65 c && leb c 90
    then c - 55
    else if leb 97 c && leb c 122
    then c - 87
    else 99

read_digits : ℕ → ℕ → Bytes → ℕ
read_digits base acc [] = acc
read_digits base acc (c ∷ s) =
    let rest = read_digits base (acc * base + digit_value c) s in
    if ltb (digit_value c) base then rest else acc

is_space : ℕ → Bool
is_space c = c == 32 || leb 9 c && leb c 13

skip_spaces : Bytes → Bytes
skip_spaces [] = []
skip_spaces (c ∷ s) = let rest = skip_spaces s in if is_space c then rest else c ∷ s

-- What follows 0: x and a hexadecimal digit, or the octal digits
after_zero : Bytes → ℕ
after_zero (c ∷ d ∷ s) =
    if (c == 120 || c == 88) && ltb (digit_value d) 16
    then read_digits 16 0 (d ∷ s)
    else read_digits 8 0 (c ∷ d ∷ s)
after_zero s = read_digits 8 0 s

read_magnitude : Bytes → ℕ
read_magnitude [] = 0
read_magnitude (c ∷ s) = if c == 48 then after_zero s else read_digits 10 0 (c ∷ s)

-- An unsigned long of 64 bits
in_range : Bool → ℕ → Reply ℕ
in_range negative v =
    if leb 18446744073709551616 v
    then refuse erange
    else reply (if negative then (18446744073709551616 - v) % 18446744073709551616 else v)

read_sign : Bytes → Reply ℕ
read_sign [] = reply 0
read_sign (c ∷ s) =
    if c == 45
    then in_range true (read_magnitude s)
    else if c == 43
    then in_range false (read_magnitude s)
    else in_range false (read_magnitude (c ∷ s))

-- strtoul(s, NULL, 0); `refuse` is ULONG_MAX with errno.
unfoldable pub strtoul : Bytes → Reply ℕ
unfolding read_sign skip_spaces is_space read_magnitude in_range read_digits digit_value after_zero
strtoul s = read_sign (skip_spaces s)

-- 10 ^ f
bound : ℕ → ℕ
bound zero = 1
bound (suc f) = 10 * bound f

-- Each byte is at least that of the digit 0.
abbrev pub AllDigits : Bytes → Type 0
AllDigits [] = Unit
AllDigits (c ∷ s) = (48 ≤ c) × AllDigits s

AllDigits-append : (s t : Bytes) → AllDigits s → AllDigits t → AllDigits (s ++ t)
AllDigits-append [] t h k = k
AllDigits-append (c ∷ s) t (b, h) k = (b, AllDigits-append s t h k)

digits-AllDigits : (f n : ℕ) → AllDigits (digits f n)
unfolding digits
digits-AllDigits zero n = tt
digits-AllDigits (suc f) n = elim (Bool-cases (ltb n 10)) [
  | inl short ↦ rw short (omega arith, tt)
  | inr long ↦ rw long (
      AllDigits-append (digits f (n / 10)) ((48 + n % 10) ∷ []) (digits-AllDigits f (n / 10))
        (omega arith, tt))
]

pub print_unsigned-AllDigits : (n : ℕ) → AllDigits (print_unsigned n)
unfolding print_unsigned
print_unsigned-AllDigits n = digits-AllDigits 10 n

length-digits : (f n : ℕ) → length (digits f n) ≤ f
unfolding digits
length-digits zero n = omega arith
length-digits (suc f) n =
    let h = length-digits f (n / 10) in
    elim (Bool-cases (ltb n 10)) [
      | inl short ↦ rw short (omega arith)
      | inr long ↦ rw (long, length-append (digits f (n / 10)) ((48 + n % 10) ∷ [])) (omega arith)
    ]

pub length-print_unsigned : (n : ℕ) → length (print_unsigned n) ≤ 10
unfolding print_unsigned
length-print_unsigned n = length-digits 10 n

is_nil-append : (s : Bytes) (c : ℕ) → is_nil (s ++ c ∷ []) ≡ false
is_nil-append [] c = refl
is_nil-append (d ∷ s) c = refl

pub is_nil-print_unsigned : (n : ℕ) → is_nil (print_unsigned n) ≡ false
unfolding print_unsigned digits
is_nil-print_unsigned n = elim (Bool-cases (ltb n 10)) [
  | inl short ↦ rw short refl
  | inr long ↦ rw long (is_nil-append _ _)
]

-- The text begins with a digit that is not 0.
abbrev Leads : Bytes → Type 0
Leads [] = ⊥
Leads (c ∷ s) = (49 ≤ c) × (c ≤ 57)

Leads-append : (s t : Bytes) → Leads s → Leads (s ++ t)
Leads-append [] t h = absurd h
Leads-append (c ∷ s) t h = h

digits-Leads : (f n : ℕ) → 0 < n → n < bound f → Leads (digits f n)
unfolding digits bound
digits-Leads zero n h k = absurd (omega arith)
digits-Leads (suc f) n h k = elim (Bool-cases (ltb n 10)) [
  | inl short ↦ rw short (omega arith, ground arith)
  | inr long ↦ rw long (
      Leads-append (digits f (n / 10)) ((48 + n % 10) ∷ [])
        (digits-Leads f (n / 10) (ground arith) (omega arith)))
]

digit_value-digit : (d : ℕ) → d < 10 → digit_value (48 + d) ≡ d
unfolding digit_value
digit_value-digit d h = ground arith

read_digits-digit :
    (acc d : ℕ) (t : Bytes)
    → d < 10
    → read_digits 10 acc ((48 + d) ∷ t) ≡ read_digits 10 (acc * 10 + d) t
unfolding read_digits
read_digits-digit acc d t h = rw (digit_value-digit d h) (ground arith)

zero_plus : (n : ℕ) → 0 * 10 + n ≡ n
zero_plus n = omega arith

read_digits-digits :
    (f n : ℕ) (t : Bytes) → n < bound f → read_digits 10 0 (digits f n ++ t) ≡ read_digits 10 n t
unfolding digits bound
read_digits-digits zero n t h = ap (λ m. read_digits 10 m t) (omega arith)
read_digits-digits (suc f) n t h = elim (Bool-cases (ltb n 10)) [
  | inl short ↦
      rw short (read_digits-digit 0 n t (ground arith) ∙ ap (λ m. read_digits 10 m t) (zero_plus n))
  | inr long ↦ rw long (
      ap (read_digits 10 0) (append_assoc (digits f (n / 10)) ((48 + n % 10) ∷ []) t)
      ∙ read_digits-digits f (n / 10) ((48 + n % 10) ∷ t) (omega arith)
      ∙ read_digits-digit (n / 10) (n % 10) t (omega arith)
      ∙ ap (λ m. read_digits 10 m t) (omega arith))
]

strtoul-Leads :
    (s : Bytes) → Leads s → read_digits 10 0 s < 4294967296 → strtoul s ≡ reply (read_digits 10 0 s)
unfolding strtoul read_sign skip_spaces is_space read_magnitude in_range
strtoul-Leads [] h k = absurd h
strtoul-Leads (c ∷ s) h k = ground arith

read_digits-print : (n : ℕ) → n < 4294967296 → read_digits 10 0 (print_unsigned n) ≡ n
unfolding print_unsigned bound read_digits
read_digits-print n h =
    ap (read_digits 10 0) (sym (append-nil (digits 10 n)))
    ∙ read_digits-digits 10 n [] (omega arith)

-- A number that was printed is read again as it was, although strtoul takes a text that begins with
-- 0 for an octal or a hexadecimal number.
pub strtoul-print_unsigned : (n : ℕ) → n < 4294967296 → strtoul (print_unsigned n) ≡ reply n
unfolding print_unsigned bound strtoul
strtoul-print_unsigned zero h = refl
strtoul-print_unsigned (suc n) h =
    let e : read_digits 10 0 (print_unsigned (suc n)) ≡ suc n = read_digits-print (suc n) h in
    strtoul-Leads (print_unsigned (suc n)) (digits-Leads 10 (suc n) (omega arith) (omega arith))
      (rw e h)
    ∙ ap reply e
