-- ===== src/Elf/Dynamic/Foreign.antt =====
-- The entries of a .dynamic segment in the encoding of the other byte order.
use iamroot.Base.{
  ℕ, zero, ◌%◌, ◌<◌, ◌≡◌, ◌∙◌, ap, sym, refl, true, false, List, [], ◌∷◌, ◌==◌, if◌then◌else◌,
  arith,
}
use mathlib.Core.Path.{fun_ext}
use iamroot.Elf.{Order, Class, class32, class64, elf_swap, elf_word, elf_long, bswap_32, bswap_64}
use iamroot.Elf.Interp.{File}
use iamroot.Elf.Dynamic.{Dyn, swap_value, swap_dyn, on_entry, Callback, proceed, each_entry}

-- Each entry has a tag below 256 in the encoding e, as DT_NEEDED and the other common tags are.
abbrev pub AllSmall : Order → Class → ℕ → List Dyn → Type 0
AllSmall order c e [] = Unit
AllSmall order c e (d ∷ ds) = (swap_value order c e d.d_tag < 256) × AllSmall order c e ds

low_byte : (v : ℕ) → bswap_32 v < 256 → v % 256 ≡ 0
unfolding bswap_32
low_byte v s = omega arith

-- Read without swapping, such a tag is no number below 256 but 0.
unlike_word : (v t : ℕ) → bswap_32 v < 256 → zero < t → t < 256 → (v % 4294967296 == t) ≡ false
unlike_word v t s z k = ground (arith, low_byte v s)

low_word : (v : ℕ) → bswap_64 v < 256 → bswap_32 (v % 4294967296) < 256
unfolding bswap_64
low_word v s = omega arith

unlike_long : (v t : ℕ) → bswap_64 v < 256 → zero < t → t < 256 → (v % 4294967296 == t) ≡ false
unlike_long v t s z k = ground (arith, low_byte (v % 4294967296) (low_word v s))

unlike :
    (order : Order) (c : Class) (e v t : ℕ)
    → elf_swap order e ≡ true
    → swap_value order c e v < 256
    → zero < t
    → t < 256
    → (v % 4294967296 == t) ≡ false
unfolding swap_value elf_word elf_long
unlike order class32 e v t x s z k = unlike_word v t (rw x at s) z k
unlike order class64 e v t x s z k = unlike_long v t (rw x at s) z k

foreign_entries {ℓ} :
    {S : Type ℓ} (callback : Callback S) (order : Order) (c : Class) (e : ℕ) (f : File)
    (strtab : ℕ × ℕ) (d_tag : ℕ) (ds : List Dyn) (ret : ℕ) (s : S)
    → elf_swap order e ≡ true
    → zero < d_tag
    → d_tag < 256
    → AllSmall order c e ds
    → each_entry callback f strtab d_tag ds ret s ≡ proceed ret s
unfolding each_entry
foreign_entries callback order c e f strtab d_tag [] ret s x z k v = refl
foreign_entries callback order c e f strtab d_tag (b ∷ ds) ret s x z k v =
    rw (unlike order c e b.d_tag d_tag x v.0 z k)
      (foreign_entries callback order c e f strtab d_tag ds ret s x z k v.1)

after_first {ℓ} :
    {S : Type ℓ} (callback : Callback S) (f : File) (strtab : ℕ × ℕ) (d_tag : ℕ) (d : Dyn)
    (ds : List Dyn) (ret : ℕ) (s : S)
    → each_entry callback f strtab d_tag ds ≡ proceed
    → each_entry callback f strtab d_tag (d ∷ ds) ret s
      ≡ each_entry callback f strtab d_tag (d ∷ []) ret s
unfolding each_entry
after_first callback f strtab d_tag d ds ret s same =
    ap
      (λ g.
        if d.d_tag % 4294967296 == d_tag
        then on_entry callback f strtab d_tag g d ret s
        else g ret s)
      (same ∙ sym (fun_ext λ r. fun_ext λ s. refl))

-- Only the first entry is swapped: where the file is in the other byte order, and the tags behind the
-- first entry are below 256 in its own, __elf_iterate_ehdr32 and __elf_iterate_ehdr64 do with the
-- entries of the segment what they do with the first one alone, whatever tag below 256 other than 0
-- they are asked for.
pub each_entry-swap_dyn {ℓ} :
    {S : Type ℓ} (callback : Callback S) (order : Order) (c : Class) (e : ℕ) (f : File)
    (strtab : ℕ × ℕ) (d_tag : ℕ) (d : Dyn) (ds : List Dyn) (ret : ℕ) (s : S)
    → elf_swap order e ≡ true
    → zero < d_tag
    → d_tag < 256
    → AllSmall order c e ds
    → each_entry callback f strtab d_tag (swap_dyn order c e (d ∷ ds)) ret s
      ≡ each_entry callback f strtab d_tag (swap_dyn order c e (d ∷ [])) ret s
unfolding swap_dyn
each_entry-swap_dyn callback order c e f strtab d_tag d ds ret s x z k v =
    after_first callback f strtab d_tag _ ds ret s
      (fun_ext λ r. fun_ext λ s. foreign_entries callback order c e f strtab d_tag ds r s x z k v)
