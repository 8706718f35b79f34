-- ===== src/Calls/Status/Shown.antt =====
-- What a program sees of a mode that it has set.
use iamroot.Base.{
  ℕ, zero, suc, ◌*◌, ◌/◌, ◌<◌, ◌≡◌, ◌∙◌, sym, ap, refl, Bool, true, false, ◌&&◌, ◌||◌, inl, inr,
  none, some, ◌∷◌, List, if◌then◌else◌, ◌==◌, ==_iff, Bool-cases, arith,
}
use iamroot.Base.Bytes.{Bytes}
use iamroot.Base.Bits.{has_bit, bit_and, has_bit-bit_and, has_bit-bit_or}
use iamroot.Calls.{
  Host, Proc, Attribute, Call, unset, or_unset, set_attribute, get_attribute, record_attribute,
  remove_attribute, mode_attribute,
}
use iamroot.Calls.Status.{s_ifmt, shown_mode}

-- setxattr(2), removexattr(2) and getxattr(2) on a file system with extended attributes
pub record KeepsAttributes (h : Host) : Type 0 where
  pub recorded :
      (log : List Call) (path : Bytes) (a : Attribute) (v : ℕ)
      → h.attribute (record_attribute path a v ∷ log) path a ≡ some v
  pub removed :
      (log : List Call) (path : Bytes) (a : Attribute)
      → h.attribute (remove_attribute path a ∷ log) path a ≡ none

-- __set_mode and then __get_mode: what was asked for, unless the host has it.
get-set_attribute :
    (h : Host) (a : Attribute) (path : Bytes) (old new : ℕ) (p : Proc)
    → KeepsAttributes h
    → get_attribute h a path (set_attribute a path old new p) ≡ (if old == new then unset else old)
unfolding get_attribute set_attribute or_unset
get-set_attribute h a path old new p keeps = elim (Bool-cases (old == new)) [
  | inl e ↦ rw e (rw (keeps.removed p.log path a) refl)
  | inr e ↦ rw e (rw (keeps.recorded p.log path a old) refl)
]

-- A mode of the file type s and the permission bits of `asked`, where the host's st_mode is st.
shows :
    (asked st i : ℕ)
    → asked < unset
    → i < 32
    → has_bit i (shown_mode asked st) ≡ ((has_bit i st && has_bit i s_ifmt) || has_bit i asked)
unfolding shown_mode
shows asked st i k j = rw unrecorded (
    has_bit-bit_or (bit_and st s_ifmt) asked i j
    ∙ ap (λ b. b || has_bit i asked) (has_bit-bit_and st s_ifmt i j))
  where
    unrecorded : (asked == unset) ≡ false
    unrecorded = ground arith

shows_unset : (st i : ℕ) → has_bit i (shown_mode unset st) ≡ has_bit i st
unfolding shown_mode
shows_unset st i = refl

-- m << width
shift : ℕ → ℕ → ℕ
shift zero m = m
shift (suc width) m = 2 * shift width m

has_bit-shift : (width m i : ℕ) → i < width → has_bit i (shift width m) ≡ false
unfolding has_bit shift
has_bit-shift zero m i k = absurd (omega arith)
has_bit-shift (suc width) m zero k = ground arith
has_bit-shift (suc width) m (suc i) k = rw halved (has_bit-shift width m i (omega arith))
  where
    halved : (2 * shift width m) / 2 ≡ shift width m
    halved = omega arith

-- The permission bits are none of the bits of the file type.
permission_bits : (i : ℕ) → i < 12 → has_bit i s_ifmt ≡ false
unfolding shift
permission_bits i k = has_bit-shift 12 15 i k

and_false : (b : Bool) → (b && false) ≡ false
and_false true = refl
and_false false = refl

-- A mode is set: `asked` is recorded and the host sets `granted`. Then each permission bit that
-- lstat and fstatat show is as it was asked for, whatever bits the host has in their place.
pub shown_mode-set_attribute :
    (h : Host) (path : Bytes) (asked granted st i : ℕ) (p : Proc)
    → KeepsAttributes h
    → asked < unset
    → i < 12
    → has_bit i st ≡ has_bit i granted
    → has_bit i (
        shown_mode
          (get_attribute h mode_attribute path (set_attribute mode_attribute path asked granted p))
          st)
      ≡ has_bit i asked
shown_mode-set_attribute h path asked granted st i p keeps fits low same =
    ap (λ m. has_bit i (shown_mode m st))
      (get-set_attribute h mode_attribute path asked granted p keeps)
    ∙ elim (Bool-cases (asked == granted)) [
      | inl e ↦ rw e (shows_unset st i ∙ same ∙ ap (has_bit i) (sym ((==_iff asked granted).0 e)))
      | inr e ↦ rw e (shows asked st i fits (omega arith) ∙ ap (λ b. b || has_bit i asked) hidden)
    ]
  where
    hidden : (has_bit i st && has_bit i s_ifmt) ≡ false
    hidden = ap (λ b. has_bit i st && b) (permission_bits i low) ∙ and_false (has_bit i st)
