-- ===== src/Calls/Mode/Granted.antt =====
-- The mode that the host gets, bit by bit.
use iamroot.Base.{
  ℕ, zero, suc, ◌<◌, ◌≡◌, ◌∙◌, sym, ap, refl, Bool, true, false, not, ◌&&◌, ◌||◌, inl, inr,
  if◌then◌else◌, ◌==◌, ==_iff, Bool-cases,
}
use iamroot.Base.Bits.{
  has_bit, bit_and, bit_or, bit_clear, has_bit-bit_and, has_bit-bit_or, has_bit-bit_clear,
}
use iamroot.Calls.Mode.{s_isuid, s_isgid, set_user_mode}

has_bit-zero : (i : ℕ) → has_bit i 0 ≡ false
unfolding has_bit
has_bit-zero zero = refl
has_bit-zero (suc i) = has_bit-zero i

-- mode |= user_mode, unless mode has these bits
with_bits :
    (mode user i : ℕ)
    → i < 32
    → has_bit i (if bit_and mode user == user then mode else bit_or mode user)
      ≡ (has_bit i mode || has_bit i user)
with_bits mode user i k = elim (Bool-cases (bit_and mode user == user)) [
  | inl e ↦ rw e (
      absorb _ _ (
        ap (has_bit i) (sym ((==_iff (bit_and mode user) user).0 e))
        ∙ has_bit-bit_and mode user i k))
  | inr e ↦ rw e (has_bit-bit_or mode user i k)
]
  where
    absorb : (a b : Bool) → b ≡ (a && b) → a ≡ (a || b)
    absorb true b e = refl
    absorb false true e = cc
    absorb false false e = refl

-- mode &= ~bit, unless mode has not that bit
without_bit :
    (mode bit i : ℕ)
    → i < 32
    → has_bit i (if bit_and mode bit == 0 then mode else bit_clear mode bit)
      ≡ (has_bit i mode && not (has_bit i bit))
without_bit mode bit i k = elim (Bool-cases (bit_and mode bit == 0)) [
  | inl e ↦ rw e (
      absorb _ _ (
        sym (has_bit-zero i)
        ∙ ap (has_bit i) (sym ((==_iff (bit_and mode bit) 0).0 e))
        ∙ has_bit-bit_and mode bit i k))
  | inr e ↦ rw e (has_bit-bit_clear mode bit i k)
]
  where
    absorb : (a b : Bool) → false ≡ (a && b) → a ≡ (a && not b)
    absorb true true e = cc
    absorb true false e = refl
    absorb false b e = refl

-- The host gets the bits that were asked for and the ones that the user needs, but neither S_ISUID
-- nor S_ISGID.
pub has_bit-set_user_mode :
    (user mode i : ℕ)
    → i < 32
    → has_bit i (set_user_mode user mode)
      ≡ ((has_bit i mode || has_bit i user) && not (has_bit i s_isuid) && not (has_bit i s_isgid))
unfolding set_user_mode
has_bit-set_user_mode user mode i k =
    without_bit _ s_isgid i k
    ∙ ap (λ b. b && not (has_bit i s_isgid)) (without_bit _ s_isuid i k)
    ∙ ap (λ b. b && not (has_bit i s_isuid) && not (has_bit i s_isgid)) (with_bits mode user i k)
