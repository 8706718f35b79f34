-- ===== src/Elf/Fields/Bounds.antt =====
-- The members of 16 and of 32 bits have no more bits than that.
use iamroot.Base.{ℕ, ◌≤◌, ◌<◌, [], ◌∷◌, if_intro, length, take, drop, length-take-le, arith}
use iamroot.Base.Bytes.{Bytes}
use iamroot.Elf.{
  Order, little, big, load, bswap_16, bswap_32, elf_swap, elf_half, elf_word, half_at, word_at,
}
use iamroot.Elf.Fields.{AllBytes, take-AllBytes, drop-AllBytes}

-- n bytes are a number below 256 ^ n.
word_bound : (order : Order) (ws : Bytes) → AllBytes ws → length ws ≤ 4 → load order ws < 4294967296
unfolding load
word_bound order (a ∷ b ∷ c ∷ d ∷ e ∷ ws) v l = absurd (omega arith)
word_bound little [] v l = omega arith
word_bound little (a ∷ []) v l = omega (arith, v.0)
word_bound little (a ∷ b ∷ []) v l = omega (arith, v.0, v.1.0)
word_bound little (a ∷ b ∷ c ∷ []) v l = omega (arith, v.0, v.1.0, v.1.1.0)
word_bound little (a ∷ b ∷ c ∷ d ∷ []) v l = omega (arith, v.0, v.1.0, v.1.1.0, v.1.1.1.0)
word_bound big [] v l = omega arith
word_bound big (a ∷ []) v l = omega (arith, v.0)
word_bound big (a ∷ b ∷ []) v l = omega (arith, v.0, v.1.0)
word_bound big (a ∷ b ∷ c ∷ []) v l = omega (arith, v.0, v.1.0, v.1.1.0)
word_bound big (a ∷ b ∷ c ∷ d ∷ []) v l = omega (arith, v.0, v.1.0, v.1.1.0, v.1.1.1.0)

half_bound : (order : Order) (ws : Bytes) → AllBytes ws → length ws ≤ 2 → load order ws < 65536
unfolding load
half_bound order (a ∷ b ∷ c ∷ ws) v l = absurd (omega arith)
half_bound little [] v l = omega arith
half_bound little (a ∷ []) v l = omega (arith, v.0)
half_bound little (a ∷ b ∷ []) v l = omega (arith, v.0, v.1.0)
half_bound big [] v l = omega arith
half_bound big (a ∷ []) v l = omega (arith, v.0)
half_bound big (a ∷ b ∷ []) v l = omega (arith, v.0, v.1.0)

pub word_at-lt :
    (order : Order) (e : ℕ) (bs : Bytes) (off : ℕ)
    → AllBytes bs
    → word_at order e bs off < 4294967296
unfolding word_at elf_word bswap_32
word_at-lt order e bs off v =
    if_intro (λ w. w < 4294967296) (elf_swap order e) _ _ (λ s. omega (arith, bound)) (λ s. bound)
  where
    bound : load order (take 4 (drop off bs)) < 4294967296
    bound =
        word_bound order _ (take-AllBytes 4 _ (drop-AllBytes off bs v))
          (length-take-le 4 (drop off bs))

pub half_at-lt :
    (order : Order) (e : ℕ) (bs : Bytes) (off : ℕ) → AllBytes bs → half_at order e bs off < 65536
unfolding half_at elf_half bswap_16
half_at-lt order e bs off v =
    if_intro (λ w. w < 65536) (elf_swap order e) _ _ (λ s. omega (arith, bound)) (λ s. bound)
  where
    bound : load order (take 2 (drop off bs)) < 65536
    bound =
        half_bound order _ (take-AllBytes 2 _ (drop-AllBytes off bs v))
          (length-take-le 2 (drop off bs))
