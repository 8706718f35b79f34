-- ===== src/Elf/Fields.antt =====
-- The members of ELF structures are read in the byte order of the file on every host.
pub mod Bounds
use iamroot.Base.{
  ℕ, zero, suc, ◌+◌, ◌*◌, ◌/◌, ◌%◌, ◌≤◌, ◌<◌, ◌≡◌, ◌⊎◌, inl, inr, refl, sym, ◌∙◌, ap, Bool, true,
  false, [], ◌∷◌, ◌==◌, if◌then◌else◌, length, take, drop, arith,
}
use iamroot.Base.Bytes.{Bytes}
use iamroot.Elf.{
  Order, little, big, load, bswap_16, bswap_32, bswap_64, host_data, elf_swap, elf_half, elf_word,
  elf_long, half_at, word_at, long_at,
}

-- The numbers are bytes.
abbrev pub AllBytes : Bytes → Type 0
AllBytes [] = Unit
AllBytes (b ∷ bs) = (b < 256) × AllBytes bs

pub take-AllBytes : (n : ℕ) (bs : Bytes) → AllBytes bs → AllBytes (take n bs)
take-AllBytes zero bs h = tt
take-AllBytes (suc n) [] h = tt
take-AllBytes (suc n) (b ∷ bs) h = (h.0, take-AllBytes n bs h.1)

pub drop-AllBytes : (n : ℕ) (bs : Bytes) → AllBytes bs → AllBytes (drop n bs)
drop-AllBytes zero bs h = h
drop-AllBytes (suc n) [] h = tt
drop-AllBytes (suc n) (b ∷ bs) h = drop-AllBytes n bs h.1

length-window : (n off : ℕ) (bs : Bytes) → off + n ≤ length bs → length (take n (drop off bs)) ≡ n
length-window zero off bs h = refl
length-window (suc n) zero [] h = absurd (omega arith)
length-window (suc n) zero (b ∷ bs) h = ap suc (length-window n zero bs (omega arith))
length-window (suc n) (suc off) [] h = absurd (omega arith)
length-window (suc n) (suc off) (b ∷ bs) h = length-window (suc n) off bs (omega arith)

-- The bytes that swapping takes from one order to the other
abbrev Swaps : (ℕ → ℕ) → ℕ → Type 0
Swaps swap n =
    (ws : Bytes)
    → length ws ≡ n
    → AllBytes ws
    → (swap (load little ws) ≡ load big ws) × (swap (load big ws) ≡ load little ws)

bswap_16-load : Swaps bswap_16 2
unfolding bswap_16 load
bswap_16-load [] h k = absurd (omega arith)
bswap_16-load (a ∷ []) h k = absurd (omega arith)
bswap_16-load (a ∷ b ∷ []) h k = (omega (arith, k.0, k.1.0), omega (arith, k.0, k.1.0))
bswap_16-load (a ∷ b ∷ c ∷ ws) h k = absurd (omega arith)

word_swaps :
    (a b c d : ℕ)
    → a < 256
    → b < 256
    → c < 256
    → d < 256
    → bswap_32 (a + 256 * (b + 256 * (c + 256 * d))) ≡ a * 16777216 + (b * 65536 + (c * 256 + d))
unfolding bswap_32
word_swaps a b c d ha hb hc hd = omega arith

bswap_32-load : Swaps bswap_32 4
unfolding load
bswap_32-load [] h k = absurd (omega arith)
bswap_32-load (a ∷ []) h k = absurd (omega arith)
bswap_32-load (a ∷ b ∷ []) h k = absurd (omega arith)
bswap_32-load (a ∷ b ∷ c ∷ []) h k = absurd (omega arith)
bswap_32-load (a ∷ b ∷ c ∷ d ∷ []) h (ha, (hb, (hc, (hd, u)))) = (
  ap bswap_32 {y = a + 256 * (b + 256 * (c + 256 * d))} (omega arith)
      ∙ word_swaps a b c d ha hb hc hd
      ∙ omega arith,
  ap bswap_32 {y = d + 256 * (c + 256 * (b + 256 * a))} (omega arith)
      ∙ word_swaps d c b a hd hc hb ha
      ∙ omega arith,
)
bswap_32-load (a ∷ b ∷ c ∷ d ∷ e ∷ ws) h k = absurd (omega arith)

-- Two words of 32 bits
long_swaps :
    (lo hi lo_swapped hi_swapped : ℕ)
    → lo < 4294967296
    → hi < 4294967296
    → bswap_32 lo ≡ lo_swapped
    → bswap_32 hi ≡ hi_swapped
    → bswap_64 (lo + 4294967296 * hi) ≡ lo_swapped * 4294967296 + hi_swapped
unfolding bswap_64
long_swaps lo hi lo_swapped hi_swapped hl hh el eh = rw (low, high) (rw (el, eh) refl)
  where
    low : (lo + 4294967296 * hi) % 4294967296 ≡ lo
    low = omega arith

    high : (lo + 4294967296 * hi) / 4294967296 ≡ hi
    high = omega arith

eight :
    (a b c d e f g h : ℕ)
    → a < 256
    → b < 256
    → c < 256
    → d < 256
    → e < 256
    → f < 256
    → g < 256
    → h < 256
    → bswap_64 (load little (a ∷ b ∷ c ∷ d ∷ e ∷ f ∷ g ∷ h ∷ []))
      ≡ load big (a ∷ b ∷ c ∷ d ∷ e ∷ f ∷ g ∷ h ∷ [])
unfolding load
eight a b c d e f g h ha hb hc hd he hf hg hh =
    ap bswap_64 {y = lo + 4294967296 * hi} (omega arith)
    ∙ long_swaps lo hi _ _ (omega arith) (omega arith) (word_swaps a b c d ha hb hc hd)
        (word_swaps e f g h he hf hg hh)
    ∙ omega arith
  where
    lo : ℕ
    lo = a + 256 * (b + 256 * (c + 256 * d))

    hi : ℕ
    hi = e + 256 * (f + 256 * (g + 256 * h))

reversed :
    (a b c d e f g h : ℕ)
    → load big (a ∷ b ∷ c ∷ d ∷ e ∷ f ∷ g ∷ h ∷ [])
      ≡ load little (h ∷ g ∷ f ∷ e ∷ d ∷ c ∷ b ∷ a ∷ [])
unfolding load
reversed a b c d e f g h = omega arith

bswap_64-load : Swaps bswap_64 8
bswap_64-load (a ∷ b ∷ c ∷ d ∷ e ∷ f ∷ g ∷ h ∷ []) k
      (ha, (hb, (hc, (hd, (he, (hf, (hg, (hh, u)))))))) =
    (
      eight a b c d e f g h ha hb hc hd he hf hg hh,
      ap bswap_64 (reversed a b c d e f g h)
          ∙ eight h g f e d c b a hh hg hf he hd hc hb ha
          ∙ reversed h g f e d c b a,
    )
bswap_64-load [] k v = absurd (omega arith)
bswap_64-load (a ∷ []) k v = absurd (omega arith)
bswap_64-load (a ∷ b ∷ []) k v = absurd (omega arith)
bswap_64-load (a ∷ b ∷ c ∷ []) k v = absurd (omega arith)
bswap_64-load (a ∷ b ∷ c ∷ d ∷ []) k v = absurd (omega arith)
bswap_64-load (a ∷ b ∷ c ∷ d ∷ e ∷ []) k v = absurd (omega arith)
bswap_64-load (a ∷ b ∷ c ∷ d ∷ e ∷ f ∷ []) k v = absurd (omega arith)
bswap_64-load (a ∷ b ∷ c ∷ d ∷ e ∷ f ∷ g ∷ []) k v = absurd (omega arith)
bswap_64-load (a ∷ b ∷ c ∷ d ∷ e ∷ f ∷ g ∷ h ∷ i ∷ ws) k v = absurd (omega arith)

-- EI_DATA is ELFDATA2LSB or ELFDATA2MSB.
abbrev pub IsEncoding : ℕ → Type 0
IsEncoding e = (e ≡ 1) ⊎ (e ≡ 2)

-- The integer in the byte order of the file
abbrev pub encoded : ℕ → Bytes → ℕ
encoded e ws = if e == 1 then load little ws else load big ws

-- if (!__elf32_swap(ehdr)) return value; return __bswap_32__(value);
swapped :
    (swap : ℕ → ℕ) (n : ℕ) (order : Order) (e : ℕ) (ws : Bytes)
    → Swaps swap n
    → IsEncoding e
    → length ws ≡ n
    → AllBytes ws
    → (if elf_swap order e then swap (load order ws) else load order ws) ≡ encoded e ws
unfolding elf_swap host_data
swapped swap n little e ws s (inl k) l v = rw k refl
swapped swap n little e ws s (inr k) l v = rw k ((s ws l v).0)
swapped swap n big e ws s (inl k) l v = rw k ((s ws l v).1)
swapped swap n big e ws s (inr k) l v = rw k refl

module _ (order : Order) (e : ℕ) (bs : Bytes) (off : ℕ) where
  -- half_at, word_at and long_at read what the file says, whatever the host is.
  pub half_at-encoded :
      IsEncoding e
      → AllBytes bs
      → off + 2 ≤ length bs
      → half_at order e bs off ≡ encoded e (take 2 (drop off bs))
  unfolding half_at elf_half
  half_at-encoded k v l =
      swapped bswap_16 2 order e _ bswap_16-load k (length-window 2 off bs l)
        (take-AllBytes 2 _ (drop-AllBytes off bs v))

  pub word_at-encoded :
      IsEncoding e
      → AllBytes bs
      → off + 4 ≤ length bs
      → word_at order e bs off ≡ encoded e (take 4 (drop off bs))
  unfolding word_at elf_word
  word_at-encoded k v l =
      swapped bswap_32 4 order e _ bswap_32-load k (length-window 4 off bs l)
        (take-AllBytes 4 _ (drop-AllBytes off bs v))

  pub long_at-encoded :
      IsEncoding e
      → AllBytes bs
      → off + 8 ≤ length bs
      → long_at order e bs off ≡ encoded e (take 8 (drop off bs))
  unfolding long_at elf_long
  long_at-encoded k v l =
      swapped bswap_64 8 order e _ bswap_64-load k (length-window 8 off bs l)
        (take-AllBytes 8 _ (drop-AllBytes off bs v))
