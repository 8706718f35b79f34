-- ===== src/Elf/Interp.antt =====
-- dso.c: the loader that a program names, by __elf_ehdr, __felf_header, __elf_interp32,
-- __elf_interp64, __felf_interp and __elf_interp.
pub mod Agreement
pub mod Found
use iamroot.Base.{
  ℕ, zero, suc, ◌+◌, ◌%◌, Bool, true, false, not, ◌&&◌, List, [], ◌∷◌, ◌==◌, ltb, if◌then◌else◌,
  length, take,
}
use iamroot.Base.Bytes.{Bytes, streq}
use iamroot.Base.Errno.{Reply, reply, refuse, eio, enoexec}
use iamroot.Elf.{
  Order, Class, class32, class64, Ehdr, Phdr, ehdr32, ehdr64, load_phdr, phdr_size, byte_at,
}

-- An open file, by pread(fd, buf, count, offset), where the offset is the pattern of its 64 bits, by
-- lseek(fd, 0, SEEK_SET), and by read(fd, buf, count) after it.
pub record File : Type 0 where
  pub pread : ℕ → ℕ → Reply Bytes
  pub rewind : Reply ℕ
  pub read : ℕ → Reply Bytes

-- if (err == -1) return -1;
unfoldable pub on_reply {ℓ κ} : {A : Type ℓ} {B : Type κ} → Reply A → (A → Reply B) → Reply B
on_reply (reply a) k = k a
on_reply (refuse e) k = refuse e

-- if (siz == -1) return -1; else if ((size_t)siz < count) return __set_errno_and_perror(EIO, -1);
unfoldable pub all_of {ℓ} : {B : Type ℓ} → ℕ → Reply Bytes → (Bytes → Reply B) → Reply B
all_of count (reply bs) k = if ltb (length bs) count then refuse eio else k bs
all_of count (refuse e) k = refuse e

-- "\177ELF"
unfoldable pub elf_magic : Bytes
elf_magic = 127 ∷ 69 ∷ 76 ∷ 70 ∷ []

-- e_ident[EI_CLASS]
unfoldable pub on_class {ℓ} : {B : Type ℓ} → ℕ → (Class → B) → B → B
on_class c k other = if c == 1 then k class32 else if c == 2 then k class64 else other

unfoldable pub load_ehdr : Order → Class → Bytes → Ehdr
load_ehdr order class32 bs = ehdr32 order bs
load_ehdr order class64 bs = ehdr64 order bs

abbrev pub pt_interp : ℕ
pt_interp = 3

-- 2 ^ 64
abbrev pub off_mod : ℕ
off_mod = 18446744073709551616

-- err = lseek(fd, 0, SEEK_SET); if (err) return -1; where errno stays as it is if err is not -1.
unfoldable pub at_start {ℓ} : {B : Type ℓ} → Reply ℕ → Reply B → Reply B
at_start (reply zero) k = k
at_start (reply (suc n)) k = refuse 0
at_start (refuse e) k = refuse e

-- The string of the .interp section, in a buffer of bufsiz bytes
unfoldable pub read_interp : File → ℕ → Phdr → Reply Bytes
read_interp f bufsiz phdr =
    if ltb bufsiz phdr.p_filesz
    then refuse eio
    else all_of phdr.p_filesz (f.pread phdr.p_filesz phdr.p_offset) reply

module _ (order : Order) (f : File) where
  -- __elf_ehdr(fd, ehdr)
  unfoldable pub elf_ehdr : Reply Ehdr
  elf_ehdr = all_of 64 (f.read 64) λ bs.
      if not (streq (take 4 bs) elf_magic)
      then refuse enoexec
      else on_class (byte_at bs 4) (λ c. reply (load_ehdr order c bs)) (refuse enoexec)

  -- __felf_header(fd, ehdr)
  unfoldable pub felf_header : Reply Ehdr
  felf_header = at_start f.rewind elf_ehdr

  -- __elf32_phdr and __elf64_phdr
  unfoldable pub elf_phdr : Class → Ehdr → ℕ → Reply Phdr
  elf_phdr c ehdr off =
      all_of (phdr_size c) (f.pread (phdr_size c) off)
        λ bs. reply (load_phdr order c ehdr.ei_data bs)

  -- The loop of __elf_interp32 and __elf_interp64, with `num - i` headers left
  unfoldable pub find_interp : Class → Ehdr → ℕ → ℕ → ℕ → Reply Bytes
  find_interp c ehdr bufsiz zero off = refuse enoexec
  find_interp c ehdr bufsiz (suc n) off = on_reply (elf_phdr c ehdr off) λ phdr.
      let rest = find_interp c ehdr bufsiz n ((off + phdr_size c) % off_mod) in
      if phdr.p_type == pt_interp then read_interp f bufsiz phdr else rest

  unfoldable pub elf_interp32 : Ehdr → ℕ → Reply Bytes
  elf_interp32 ehdr bufsiz = find_interp class32 ehdr bufsiz ehdr.e_phnum ehdr.e_phoff

  unfoldable pub elf_interp64 : Ehdr → ℕ → Reply Bytes
  elf_interp64 ehdr bufsiz = find_interp class64 ehdr bufsiz ehdr.e_phnum ehdr.e_phoff

  unfoldable pub interp_of : Ehdr → ℕ → Class → Reply Bytes
  interp_of ehdr bufsiz class32 = elf_interp32 ehdr bufsiz
  interp_of ehdr bufsiz class64 = elf_interp64 ehdr bufsiz

  -- __felf_interp(fd, buf, bufsiz)
  unfoldable pub felf_interp : ℕ → Reply Bytes
  felf_interp bufsiz =
      on_reply felf_header λ ehdr. on_class ehdr.ei_class (interp_of ehdr bufsiz) (refuse enoexec)

-- __elf_interp(path, buf, bufsiz), of next_open(path, O_RDONLY | O_CLOEXEC, 0)
unfoldable pub elf_interp : Order → Reply File → ℕ → Reply Bytes
elf_interp order opened bufsiz = on_reply opened λ f. felf_interp order f bufsiz
