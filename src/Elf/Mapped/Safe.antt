-- ===== src/Elf/Mapped/Safe.antt =====
-- Where __elf_has_interp reads out of the mapping of the file, and where it does not.
use iamroot.Base.{
  ℕ, zero, suc, ◌+◌, ◌*◌, ◌%◌, ◌≤◌, ◌<◌, ◌≡◌, ◌≢◌, ◌∙◌, refl, sym, Bool, true, false, not, ◌&&◌, [],
  ◌∷◌, ltb, leb, ◌==◌, ==_iff, if_intro, length, take, arith,
}
use iamroot.Base.Bytes.{Bytes, streq}
use iamroot.Base.Errno.{Reply, reply, refuse, enoent}
use iamroot.Elf.{Order, Class, class32, Ehdr, Phdr, phdr_size, first, byte_at, ehdr32}
use iamroot.Elf.Fields.Bounds.{half_at-lt, word_at-lt}
use iamroot.Elf.Fields.{AllBytes, take-AllBytes}
use iamroot.Elf.Interp.{elf_magic, load_ehdr, on_class, off_mod}
use iamroot.Elf.Mapped.{
  Access, got, failed, fault, on_got, copy, Image, on_host, Callback, after_callback, elf_header,
  program_header, use_segment, iterate_for_pt, elf32_iterate_for_pt, iterate_class, iterate_header,
  iterate_shared_object_for_pt, has_interp_callback, interp_result, has_interp,
}

-- It does not read out of the mapping.
abbrev pub IsSafe {ℓ} : {A : Type ℓ} → Access A → Type 0
IsSafe (got a) = Unit
IsSafe (failed e) = Unit
IsSafe fault = ⊥

on_got-IsSafe {ℓ κ} :
    {A : Type ℓ} {B : Type κ} (r : Access A) (k : A → Access B)
    → IsSafe r
    → ((a : A) → r ≡ got a → IsSafe (k a))
    → IsSafe (on_got r k)
unfolding on_got
on_got-IsSafe (got a) k h s = s a refl
on_got-IsSafe (failed e) k h s = tt
on_got-IsSafe fault k h s = h

on_host-IsSafe {ℓ κ} :
    {A : Type ℓ} {B : Type κ} (r : Reply A) (k : A → Access B)
    → ((a : A) → r ≡ reply a → IsSafe (k a))
    → IsSafe (on_host r k)
unfolding on_host
on_host-IsSafe (reply a) k s = s a refl
on_host-IsSafe (refuse e) k s = tt

copy-IsSafe {ℓ} :
    {B : Type ℓ} (addr : Bytes) (offset size : ℕ) (k : Bytes → Access B)
    → offset + size ≤ length addr
    → ((bs : Bytes) → IsSafe (k bs))
    → IsSafe (copy addr offset size k)
unfolding copy
copy-IsSafe addr offset size k h s =
    if_intro IsSafe (leb (offset + size) (length addr)) _ _ (λ e. s _) λ e. absurd (ground arith)

-- Without a carry out of 64 bits, the check of the bounds is the right one.
program_header-IsSafe :
    (order : Order) (c : Class) (addr : Bytes) (ehdr : Ehdr) (offset : ℕ)
    → offset + phdr_size c < off_mod
    → IsSafe (program_header order c addr ehdr offset)
unfolding program_header
program_header-IsSafe order c addr ehdr offset k =
    if_intro IsSafe (ltb (length addr) ((offset + phdr_size c) % off_mod)) _ _ (λ e. tt)
      λ e. copy-IsSafe addr offset (phdr_size c) _ (ground arith) (λ bs. tt)

use_segment-IsSafe :
    (addr : Bytes) (callback : Callback) (phdr : Phdr) (rest : Access ℕ)
    → IsSafe rest
    → IsSafe (use_segment addr callback phdr rest)
unfolding use_segment after_callback
use_segment-IsSafe addr callback phdr rest s =
    if_intro IsSafe (ltb (length addr) phdr.p_offset) _ _ (λ e. tt)
      λ e. after (callback phdr.p_offset phdr.p_filesz)
  where
    after : (r : Reply Bool) → IsSafe (after_callback r rest)
    after (refuse e) = tt
    after (reply true) = tt
    after (reply false) = s

iterate_for_pt-IsSafe :
    (order : Order) (addr : Bytes) (ehdr : Ehdr) (p_type : ℕ) (callback : Callback) (n off : ℕ)
    → off + n * 32 < off_mod
    → IsSafe (iterate_for_pt order class32 addr ehdr p_type callback n off)
unfolding iterate_for_pt phdr_size
iterate_for_pt-IsSafe order addr ehdr p_type callback zero off k = tt
iterate_for_pt-IsSafe order addr ehdr p_type callback (suc n) off k =
    let rest =
      iterate_for_pt-IsSafe order addr ehdr p_type callback n ((off + 32) % off_mod)
        (omega arith) in
    on_got-IsSafe _ _ (program_header-IsSafe order class32 addr ehdr off (omega arith)) λ phdr e.
      if_intro IsSafe (phdr.p_type == p_type) _ _
        (λ t. use_segment-IsSafe addr callback phdr _ rest) (λ t. rest)

byte_at-take : (bs : Bytes) → byte_at (take 64 bs) 4 ≡ byte_at bs 4
unfolding byte_at first
byte_at-take [] = refl
byte_at-take (a ∷ []) = refl
byte_at-take (a ∷ b ∷ []) = refl
byte_at-take (a ∷ b ∷ c ∷ []) = refl
byte_at-take (a ∷ b ∷ c ∷ d ∷ []) = refl
byte_at-take (a ∷ b ∷ c ∷ d ∷ e ∷ bs) = refl

-- mmap(2)
pub record GivesBytes (image : Image) : Type 0 where
  pub bytes : (n : ℕ) (addr : Bytes) → image.mmap n ≡ reply addr → AllBytes addr

-- It does not read out of the mapping, and what it gives has the property.
abbrev Gives {ℓ} : {A : Type ℓ} → (A → Type 0) → Access A → Type 0
Gives P (got a) = P a
Gives P (failed e) = Unit
Gives P fault = ⊥

on_got-Gives {ℓ κ} :
    {A : Type ℓ} {B : Type κ} (P : A → Type 0) (r : Access A) (k : A → Access B)
    → Gives P r
    → ((a : A) → P a → IsSafe (k a))
    → IsSafe (on_got r k)
unfolding on_got
on_got-Gives P (got a) k h s = s a h
on_got-Gives P (failed e) k h s = tt
on_got-Gives P fault k h s = h

-- A header of a class other than ELFCLASS64, with the bounds of its 16 and 32 bits
abbrev IsSmall : Ehdr → Type 0
IsSmall ehdr = (ehdr.ei_class ≢ 2) × (ehdr.e_phnum < 65536) × (ehdr.e_phoff < 4294967296)

module _ (order : Order) (addr : Bytes) where
  elf_header-IsSmall : byte_at addr 4 ≢ 2 → AllBytes addr → Gives IsSmall (elf_header order addr)
  unfolding elf_header copy on_class load_ehdr ehdr32
  elf_header-IsSmall c v =
      if_intro (Gives IsSmall) (ltb (length addr) 64) _ _ (λ s. tt)
        λ s.
          if_intro (Gives IsSmall) (leb 64 (length addr)) _ _
            (λ l.
              if_intro (Gives IsSmall) (not (streq (take 4 (take 64 addr)) elf_magic)) _ _ (λ m. tt)
                λ m.
                  if_intro (Gives IsSmall) (byte_at (take 64 addr) 4 == 1) _ _ (λ k. small)
                    λ k.
                      if_intro (Gives IsSmall) (byte_at (take 64 addr) 4 == 2) _ _
                        (λ d. absurd (c (sym (byte_at-take addr) ∙ (==_iff _ 2).0 d))) (λ d. tt))
            (λ l. ground arith)
    where
      small : IsSmall (ehdr32 order (take 64 addr))
      small = (
        λ k. c (sym (byte_at-take addr) ∙ k),
        half_at-lt order _ (take 64 addr) 44 (take-AllBytes 64 addr v),
        word_at-lt order _ (take 64 addr) 28 (take-AllBytes 64 addr v),
      )

  iterate_header-IsSafe :
      (p_type : ℕ) (callback : Callback) (ehdr : Ehdr)
      → IsSmall ehdr
      → IsSafe (iterate_header order addr p_type callback ehdr)
  unfolding iterate_header on_class iterate_class elf32_iterate_for_pt
  iterate_header-IsSafe p_type callback ehdr (c, n, o) =
      if_intro IsSafe (not (ehdr.e_type == 2) && not (ehdr.e_type == 3)) _ _ (λ t. tt)
        λ t.
          if_intro IsSafe (ehdr.ei_class == 1) _ _
            (λ k.
              iterate_for_pt-IsSafe order addr ehdr p_type callback ehdr.e_phnum ehdr.e_phoff
                (omega arith))
            λ k.
              if_intro IsSafe (ehdr.ei_class == 2) _ _ (λ d. absurd (c ((==_iff _ 2).0 d)))
                (λ d. tt)

interp_result-IsSafe : (r : Access ℕ) → IsSafe r → IsSafe (interp_result r)
unfolding interp_result
interp_result-IsSafe (got n) s = tt
interp_result-IsSafe (failed e) s = if_intro IsSafe (not (e == enoent)) _ _ (λ k. tt) (λ k. tt)
interp_result-IsSafe fault s = s

-- A file that is mapped and that is not of ELFCLASS64: whatever its bytes are, and on every host,
-- __elf_has_interp reads inside of the mapping alone.
pub has_interp-IsSafe :
    (order : Order) (image : Image)
    → GivesBytes image
    → ((n : ℕ) (addr : Bytes) → image.mmap n ≡ reply addr → byte_at addr 4 ≢ 2)
    → IsSafe (has_interp order image)
unfolding has_interp iterate_shared_object_for_pt
has_interp-IsSafe order image g c = interp_result-IsSafe _ (
    on_host-IsSafe image.st_size _ λ n e.
      if_intro IsSafe (n == 0) _ _ (λ z. tt)
        λ z. on_host-IsSafe (image.mmap n) _ λ addr m.
          on_got-Gives IsSmall (elf_header order addr) _
            (elf_header-IsSmall order addr (c n addr m) (g.bytes n addr m))
            λ ehdr s. iterate_header-IsSafe order addr 3 has_interp_callback ehdr s)
