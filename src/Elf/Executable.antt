-- ===== src/Elf/Executable.antt =====
-- iamroot.c: __is_suid, __fcan_exec and __can_exec, which say whether iamroot can run a program.
pub mod Sound
use iamroot.Base.{
  ℕ, Bool, true, false, not, ◌&&◌, List, [], ◌∷◌, ◌==◌, ltb, if◌then◌else◌, length, take, ◌≡◌, ◌⊎◌,
  inl, inr, refl, Bool-cases, arith,
}
use iamroot.Base.Bytes.{Bytes, streq, streq_iff}
use iamroot.Base.Bits.{has_bit}
use iamroot.Base.Errno.{Reply, reply, refuse, eio, enoexec, enotsup}
use iamroot.Elf.{Order}
use iamroot.Elf.Interp.{elf_magic}
use iamroot.Elf.Mapped.{Access, got, failed, fault, on_host, Image, has_interp}

-- A file that is open: st_mode of fstat(fd, ...), read(fd, buf, count), and the file to be mapped
pub record Program : Type 0 where
  pub st_mode : Reply ℕ
  pub read : ℕ → Reply Bytes
  pub image : Image

-- A file by its name: st_mode of next_fstatat(AT_FDCWD, path, ..., 0), and
-- next_open(path, O_RDONLY | O_CLOEXEC, 0)
pub record Candidate : Type 0 where
  pub st_mode : Reply ℕ
  pub opened : Reply Program

-- SCRIPTMAG
abbrev pub script_magic : Bytes
script_magic = 35 ∷ 33 ∷ []

module _ (order : Order) where
  -- What __fcan_exec makes of the first bytes of the file
  unfoldable pub on_magic : Image → Bytes → Access ℕ
  on_magic image magic =
      if not (length magic == 0) && ltb (length magic) 4
      then failed eio
      else if length magic == 0
      then got 1
      else if streq (take 2 magic) script_magic
      then got 1
      else if streq (take 4 magic) elf_magic
      then has_interp order image
      else failed enotsup

  -- __fcan_exec(fd); S_IXUSR is the bit 6.
  unfoldable pub fcan_exec : Program → Access ℕ
  fcan_exec p = on_host p.st_mode λ mode.
      if not (has_bit 6 mode)
      then failed enoexec
      else on_host (p.read 4) λ magic. on_magic p.image magic

  -- __can_exec(path); S_ISUID is the bit 11.
  unfoldable pub can_exec : Candidate → Access ℕ
  can_exec c =
      on_host c.st_mode λ mode. if has_bit 11 mode then got 0 else on_host c.opened λ p. fcan_exec p
