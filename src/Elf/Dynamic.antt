-- ===== src/Elf/Dynamic.antt =====
-- dso.c: the entries of the .dynamic segment, by __elf32_dyn, __elf64_dyn, __elf_iterate_ehdr32,
-- __elf_iterate_ehdr64 and __elf_iterate_shared_object.
pub mod Foreign
pub mod Tests
use iamroot.Base.{
  ℕ, zero, suc, ◌+◌, ◌-◌, ◌*◌, ◌/◌, ◌%◌, Bool, true, false, not, ◌&&◌, ◌||◌, List, [], ◌∷◌, ◌==◌,
  ltb, if◌then◌else◌, length, take, drop,
}
use Prim.Native.Nat.{min}
use iamroot.Base.Bytes.{Bytes}
use iamroot.Base.Errno.{Reply, reply, refuse, eio, enoexec}
use iamroot.Elf.{
  Order, Class, class32, class64, Ehdr, Shdr, Phdr, load, elf_word, elf_long, load_shdr, shdr_size,
  phdr_size,
}
use iamroot.Elf.Interp.{File, on_reply, all_of, on_class, at_start, elf_ehdr, elf_phdr, off_mod}

-- Elf32_Dyn and Elf64_Dyn; d_val and d_ptr are the same member.
pub record Dyn : Type 0 where
  pub d_tag : ℕ
  pub d_val : ℕ

-- What the callback is given: an integer, or the bytes of the string table from the name on
pub data Value : Type 0 where
  integer : ℕ → Value
  text : Bytes → Value

-- sizeof(Elf32_Dyn) and sizeof(Elf64_Dyn)
unfoldable pub dyn_size : Class → ℕ
dyn_size class32 = 8
dyn_size class64 = 16

-- The members are of this size.
unfoldable pub value_size : Class → ℕ
value_size class32 = 4
value_size class64 = 8

-- DT_NEEDED, DT_SONAME, DT_RPATH or DT_RUNPATH
unfoldable pub is_string_tag : ℕ → Bool
is_string_tag d_tag = d_tag == 1 || d_tag == 14 || d_tag == 15 || d_tag == 29

-- BUFSIZ of the C library
abbrev pub bufsiz_of_stdio : ℕ
bufsiz_of_stdio = 8192

abbrev pub sht_strtab : ℕ
sht_strtab = 3

abbrev pub pt_dynamic : ℕ
pt_dynamic = 2

module _ (order : Order) where
  -- The bytes as an array of Elf32_Dyn or Elf64_Dyn, of n entries
  unfoldable pub load_dyns : Class → ℕ → Bytes → List Dyn
  load_dyns c zero bs = []
  load_dyns c (suc n) bs =
      record {
        d_tag = load order (take (value_size c) bs);
        d_val = load order (take (value_size c) (drop (value_size c) bs));
      }
      ∷ load_dyns c n (drop (dyn_size c) bs)

  -- __bswap_32__ or __bswap_64__, if it is called for
  unfoldable pub swap_value : Class → ℕ → ℕ → ℕ
  swap_value class32 e v = elf_word order e v
  swap_value class64 e v = elf_long order e v

  -- What the end of __elf32_dyn and of __elf64_dyn swaps: the members of *dyn
  unfoldable pub swap_dyn : Class → ℕ → List Dyn → List Dyn
  swap_dyn c e [] = []
  swap_dyn c e (d ∷ ds) =
      record { d_tag = swap_value c e d.d_tag; d_val = swap_value c e d.d_val } ∷ ds

  module _ (f : File) where
    -- __elf32_dyn and __elf64_dyn, and the entries of the array that are whole
    unfoldable pub elf_dyn : Class → Ehdr → ℕ → ℕ → Reply (List Dyn)
    elf_dyn c ehdr dynsiz offset =
        all_of dynsiz (f.pread dynsiz offset)
          λ bs. reply (swap_dyn c ehdr.ei_data (load_dyns c (dynsiz / dyn_size c) bs))

    -- __elf32_shdr and __elf64_shdr
    unfoldable pub elf_shdr : Class → Ehdr → ℕ → Reply Shdr
    elf_shdr c ehdr off =
        all_of (shdr_size c) (f.pread (shdr_size c) off)
          λ bs. reply (load_shdr order c ehdr.ei_data bs)

    -- The first section of type SHT_STRTAB: its size and offset, or 0 and 0
    unfoldable pub find_strtab : Class → Ehdr → ℕ → ℕ → Reply (ℕ × ℕ)
    find_strtab c ehdr zero off = reply (0, 0)
    find_strtab c ehdr (suc n) off = on_reply (elf_shdr c ehdr off) λ shdr.
        let rest = find_strtab c ehdr n ((off + shdr_size c) % off_mod) in
        if shdr.sh_type == sht_strtab then reply (shdr.sh_size, shdr.sh_offset) else rest

-- -1 as the pattern of an int
abbrev pub minus_one : ℕ
minus_one = 4294967295

-- How the iteration ends or goes on: with `ret`, and the state of the caller's data
pub data Step {ℓ} (S : Type ℓ) : Type ℓ where
  exit : ℕ → S → Step S
  proceed : ℕ → S → Step S

-- A callback gives its int as a pattern, and the data as it leaves them.
abbrev pub Callback {ℓ} : Type ℓ → Type ℓ
Callback S = Value → S → ℕ × S

module _ {ℓ} {S : Type ℓ} (callback : Callback S) where
  -- ret = callback(...); if (ret != 0) break;
  unfoldable pub on_result : (ℕ → S → Step S) → ℕ × S → Step S
  on_result rest (r, s) = if r == 0 then rest r s else proceed r s

  -- siz = pread(fd, buf, size, str_off), and the callback
  unfoldable pub on_text : (ℕ → S → Step S) → ℕ → ℕ → S → Reply Bytes → Step S
  on_text rest size ret s (refuse e) = exit ret s
  on_text rest size ret s (reply bs) =
      if ltb (length bs) size
      then exit minus_one s
      else on_result rest (callback (text (take size bs)) s)

  module _ (f : File) (strtab : ℕ × ℕ) (d_tag : ℕ) where
    -- An entry of the tag: size_t and off_t are patterns of 64 bits.
    unfoldable pub on_entry : (ℕ → S → Step S) → Dyn → ℕ → S → Step S
    on_entry rest d ret s =
        if not (is_string_tag d_tag)
        then on_result rest (callback (integer d.d_val) s)
        else let size = min ((strtab.0 + off_mod - d.d_val) % off_mod) bufsiz_of_stdio in
          on_text rest size ret s (f.pread size ((strtab.1 + d.d_val) % off_mod))

    -- The loop over the dynamic entries, where d_tag is compared as an int
    unfoldable pub each_entry : List Dyn → ℕ → S → Step S
    each_entry [] ret s = proceed ret s
    each_entry (d ∷ ds) ret s =
        if d.d_tag % 4294967296 == d_tag
        then on_entry (each_entry ds) d ret s
        else each_entry ds ret s

  module _ (order : Order) (f : File) (c : Class) (ehdr : Ehdr) (strtab : ℕ × ℕ) (d_tag : ℕ) where
    -- What follows the loop over the entries of a segment
    unfoldable pub after_entries : (ℕ → S → ℕ × S) → Step S → ℕ × S
    after_entries rest (exit r s) = (r, s)
    after_entries rest (proceed r s) = rest r s

    -- The entries of the segment
    unfoldable pub on_dyns : (ℕ → S → ℕ × S) → ℕ → S → Reply (List Dyn) → ℕ × S
    on_dyns rest ret s (refuse e) = (ret, s)
    on_dyns rest ret s (reply ds) = after_entries rest (each_entry f strtab d_tag ds ret s)

    unfoldable pub on_dynamic : (ℕ → S → ℕ × S) → Phdr → ℕ → S → ℕ × S
    on_dynamic rest phdr ret s =
        if ltb (1024 * dyn_size c) phdr.p_filesz
        then (minus_one, s)
        else on_dyns rest ret s (elf_dyn order f c ehdr phdr.p_filesz phdr.p_offset)

    unfoldable pub on_phdr : (ℕ → S → ℕ × S) → ℕ → S → Reply Phdr → ℕ × S
    on_phdr rest ret s (refuse e) = (ret, s)
    on_phdr rest ret s (reply phdr) =
        if phdr.p_type == pt_dynamic then on_dynamic rest phdr ret s else rest ret s

    -- The loop over the program headers, and `ret = 0` after it
    unfoldable pub each_phdr : ℕ → ℕ → ℕ → S → ℕ × S
    each_phdr zero off ret s = (0, s)
    each_phdr (suc n) off ret s =
        on_phdr (each_phdr n ((off + phdr_size c) % off_mod)) ret s (elf_phdr order f c ehdr off)

  module _ (order : Order) (f : File) (d_tag : ℕ) where
    -- What follows the search for the string table
    unfoldable pub on_strtab : Class → Ehdr → S → Reply (ℕ × ℕ) → ℕ × S
    on_strtab c ehdr s (refuse e) = (minus_one, s)
    on_strtab c ehdr s (reply (size, off)) =
        if off == 0
        then (minus_one, s)
        else each_phdr order f c ehdr (size, off) d_tag ehdr.e_phnum ehdr.e_phoff minus_one s

    unfoldable pub elf_iterate_ehdr32 : Ehdr → S → ℕ × S
    elf_iterate_ehdr32 ehdr s =
        on_strtab class32 ehdr s (find_strtab order f class32 ehdr ehdr.e_shnum ehdr.e_shoff)

    unfoldable pub elf_iterate_ehdr64 : Ehdr → S → ℕ × S
    elf_iterate_ehdr64 ehdr s =
        on_strtab class64 ehdr s (find_strtab order f class64 ehdr ehdr.e_shnum ehdr.e_shoff)

    unfoldable pub elf_iterate_ehdr : Ehdr → S → Class → ℕ × S
    elf_iterate_ehdr ehdr s class32 = elf_iterate_ehdr32 ehdr s
    elf_iterate_ehdr ehdr s class64 = elf_iterate_ehdr64 ehdr s

    -- What __elf_iterate_shared_object does with the header
    unfoldable pub on_ehdr : S → Reply Ehdr → ℕ × S
    on_ehdr s (refuse e) = (minus_one, s)
    on_ehdr s (reply ehdr) =
        if not (ehdr.e_type == 2) && not (ehdr.e_type == 3)
        then (minus_one, s)
        else on_class ehdr.ei_class (elf_iterate_ehdr ehdr s) (minus_one, s)

    -- __elf_iterate_shared_object(fd, d_tag, callback, data)
    unfoldable pub iterate_shared_object : S → ℕ × S
    iterate_shared_object s = on_ehdr s (at_start f.rewind (elf_ehdr order f))
