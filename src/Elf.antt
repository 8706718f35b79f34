-- ===== src/Elf.antt =====
-- dso.c: the structures of ELF files, as __elf_ehdr, __elf32_phdr, __elf64_phdr and the functions
-- beside them read them into memory. The byte order of the host is a parameter.
pub mod Fields
pub mod Interp
pub mod Dynamic
pub mod Tests
pub mod Mapped
pub mod Executable
use iamroot.Base.{
  ℕ, ◌+◌, ◌*◌, ◌/◌, ◌%◌, ◌^◌, Bool, not, List, [], ◌∷◌, ◌==◌, if◌then◌else◌, length, take, drop,
  ltb,
}
use iamroot.Base.Bytes.{Bytes, streq}
use iamroot.Base.Errno.{Reply, reply, refuse, eio, enoexec}

-- The byte order of the host
pub data Order : Type 0 where
  little : Order
  big : Order

-- The unsigned integer that these bytes of the memory of the host are
unfoldable pub load : Order → Bytes → ℕ
load little [] = 0
load little (b ∷ bs) = b + 256 * load little bs
load big [] = 0
load big (b ∷ bs) = b * 256 ^ length bs + load big bs

-- __bswap_16__(x), of x below 2 ^ 16; here and below, `|` of numbers without a common bit is `+`.
unfoldable pub bswap_16 : ℕ → ℕ
bswap_16 x = x % 256 * 256 + x / 256

-- __bswap_32__(x), of x below 2 ^ 32
unfoldable pub bswap_32 : ℕ → ℕ
bswap_32 x = x / 16777216 + x / 65536 % 256 * 256 + x / 256 % 256 * 65536 + x % 256 * 16777216

-- __bswap_64__(x), of x below 2 ^ 64
unfoldable pub bswap_64 : ℕ → ℕ
bswap_64 x = bswap_32 (x % 4294967296) * 4294967296 + bswap_32 (x / 4294967296)

-- u.c[3] + 1: ELFDATA2LSB or ELFDATA2MSB
unfoldable pub host_data : Order → ℕ
host_data little = 1
host_data big = 2

-- __elf32_swap(ehdr) and __elf64_swap(ehdr), of ehdr->e_ident[EI_DATA]
unfoldable pub elf_swap : Order → ℕ → Bool
elf_swap order data_encoding = not (host_data order == data_encoding)

-- __elf32_half, __elf32_word with __elf32_address and __elf32_offset, and the ones of 64 bits
module _ (order : Order) (encoding : ℕ) where
  unfoldable pub elf_half : ℕ → ℕ
  elf_half value = if elf_swap order encoding then bswap_16 value else value

  unfoldable pub elf_word : ℕ → ℕ
  elf_word value = if elf_swap order encoding then bswap_32 value else value

  unfoldable pub elf_long : ℕ → ℕ
  elf_long value = if elf_swap order encoding then bswap_64 value else value

  -- The member at an offset of a structure, put into the byte order of the host
  unfoldable pub half_at : Bytes → ℕ → ℕ
  half_at bs off = elf_half (load order (take 2 (drop off bs)))

  unfoldable pub word_at : Bytes → ℕ → ℕ
  word_at bs off = elf_word (load order (take 4 (drop off bs)))

  unfoldable pub long_at : Bytes → ℕ → ℕ
  long_at bs off = elf_long (load order (take 8 (drop off bs)))

-- The members of Elf32_Ehdr and Elf64_Ehdr, with EI_CLASS, EI_DATA and EI_OSABI of e_ident
pub record Ehdr : Type 0 where
  pub ei_class : ℕ
  pub ei_data : ℕ
  pub ei_osabi : ℕ
  pub e_type : ℕ
  pub e_machine : ℕ
  pub e_version : ℕ
  pub e_entry : ℕ
  pub e_phoff : ℕ
  pub e_shoff : ℕ
  pub e_flags : ℕ
  pub e_ehsize : ℕ
  pub e_phentsize : ℕ
  pub e_phnum : ℕ
  pub e_shentsize : ℕ
  pub e_shnum : ℕ
  pub e_shstrndx : ℕ

-- Elf32_Phdr and Elf64_Phdr
pub record Phdr : Type 0 where
  pub p_type : ℕ
  pub p_flags : ℕ
  pub p_offset : ℕ
  pub p_vaddr : ℕ
  pub p_paddr : ℕ
  pub p_filesz : ℕ
  pub p_memsz : ℕ
  pub p_align : ℕ

-- Elf32_Shdr and Elf64_Shdr, without sh_info, which __elf32_shdr leaves as it is
pub record Shdr : Type 0 where
  pub sh_name : ℕ
  pub sh_type : ℕ
  pub sh_flags : ℕ
  pub sh_addr : ℕ
  pub sh_offset : ℕ
  pub sh_size : ℕ
  pub sh_link : ℕ
  pub sh_addralign : ℕ
  pub sh_entsize : ℕ

unfoldable pub first : Bytes → ℕ
first [] = 0
first (b ∷ bs) = b

-- e_ident[i], of a structure that is longer
unfoldable pub byte_at : Bytes → ℕ → ℕ
byte_at bs i = first (drop i bs)

-- ELFCLASS32 and ELFCLASS64
pub data Class : Type 0 where
  class32 : Class
  class64 : Class

-- sizeof(Elf32_Phdr) and sizeof(Elf64_Phdr)
unfoldable pub phdr_size : Class → ℕ
phdr_size class32 = 32
phdr_size class64 = 56

-- sizeof(Elf32_Shdr) and sizeof(Elf64_Shdr)
unfoldable pub shdr_size : Class → ℕ
shdr_size class32 = 40
shdr_size class64 = 64

module _ (order : Order) where
  -- The header of 64 bytes. e_shentsize is made of e_phentsize, which has been swapped already.
  unfoldable pub ehdr32 : Bytes → Ehdr
  ehdr32 bs =
      let e = byte_at bs 5 in
      record {
        ei_class = byte_at bs 4;
        ei_data = e;
        ei_osabi = byte_at bs 7;
        e_type = half_at order e bs 16;
        e_machine = half_at order e bs 18;
        e_version = word_at order e bs 20;
        e_entry = word_at order e bs 24;
        e_phoff = word_at order e bs 28;
        e_shoff = word_at order e bs 32;
        e_flags = word_at order e bs 36;
        e_ehsize = half_at order e bs 40;
        e_phentsize = half_at order e bs 42;
        e_phnum = half_at order e bs 44;
        e_shentsize = elf_half order e (half_at order e bs 42);
        e_shnum = half_at order e bs 48;
        e_shstrndx = half_at order e bs 50;
      }

  unfoldable pub ehdr64 : Bytes → Ehdr
  ehdr64 bs =
      let e = byte_at bs 5 in
      record {
        ei_class = byte_at bs 4;
        ei_data = e;
        ei_osabi = byte_at bs 7;
        e_type = half_at order e bs 16;
        e_machine = half_at order e bs 18;
        e_version = word_at order e bs 20;
        e_entry = long_at order e bs 24;
        e_phoff = long_at order e bs 32;
        e_shoff = long_at order e bs 40;
        e_flags = word_at order e bs 48;
        e_ehsize = half_at order e bs 52;
        e_phentsize = half_at order e bs 54;
        e_phnum = half_at order e bs 56;
        e_shentsize = elf_half order e (half_at order e bs 54);
        e_shnum = half_at order e bs 60;
        e_shstrndx = half_at order e bs 62;
      }

  -- The program header of the bytes that were read
  unfoldable pub load_phdr : Class → ℕ → Bytes → Phdr
  load_phdr class32 e bs = record {
    p_type = word_at order e bs 0;
    p_offset = word_at order e bs 4;
    p_vaddr = word_at order e bs 8;
    p_paddr = word_at order e bs 12;
    p_filesz = word_at order e bs 16;
    p_memsz = word_at order e bs 20;
    p_flags = word_at order e bs 24;
    p_align = word_at order e bs 28;
  }
  load_phdr class64 e bs = record {
    p_type = word_at order e bs 0;
    p_flags = word_at order e bs 4;
    p_offset = long_at order e bs 8;
    p_vaddr = long_at order e bs 16;
    p_paddr = long_at order e bs 24;
    p_filesz = long_at order e bs 32;
    p_memsz = long_at order e bs 40;
    p_align = long_at order e bs 48;
  }

  -- The section header of the bytes that were read
  unfoldable pub load_shdr : Class → ℕ → Bytes → Shdr
  load_shdr class32 e bs = record {
    sh_name = word_at order e bs 0;
    sh_type = word_at order e bs 4;
    sh_flags = word_at order e bs 8;
    sh_addr = word_at order e bs 12;
    sh_offset = word_at order e bs 16;
    sh_size = word_at order e bs 20;
    sh_link = word_at order e bs 24;
    sh_addralign = word_at order e bs 32;
    sh_entsize = word_at order e bs 36;
  }
  load_shdr class64 e bs = record {
    sh_name = word_at order e bs 0;
    sh_type = word_at order e bs 4;
    sh_flags = long_at order e bs 8;
    sh_addr = long_at order e bs 16;
    sh_offset = long_at order e bs 24;
    sh_size = long_at order e bs 32;
    sh_link = word_at order e bs 40;
    sh_addralign = long_at order e bs 48;
    sh_entsize = long_at order e bs 56;
  }
