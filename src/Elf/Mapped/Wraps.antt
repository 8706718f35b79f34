-- ===== src/Elf/Mapped/Wraps.antt =====
-- The check of the bounds of __elf64_program_header wraps.
use iamroot.Base.{
  ℕ, suc, ◌+◌, ◌%◌, ◌≤◌, ◌<◌, ◌≡◌, refl, false, inl, inr, Bool-cases, ltb, leb, ◌==◌, length, arith,
}
use iamroot.Base.Bytes.{Bytes}
use iamroot.Base.Errno.{reply, erange}
use iamroot.Elf.{Order, class64, Ehdr, phdr_size}
use iamroot.Elf.Interp.{on_class, off_mod}
use iamroot.Elf.Mapped.{
  got, failed, fault, on_got, copy, Image, on_host, elf_header, program_header, iterate_for_pt,
  elf64_iterate_for_pt, iterate_class, iterate_header, iterate_shared_object_for_pt, interp_result,
  has_interp, has_interp_callback,
}

elf_header-long :
    (order : Order) (addr : Bytes) (ehdr : Ehdr)
    → elf_header order addr ≡ got ehdr
    → 64 ≤ length addr
unfolding elf_header
elf_header-long order addr ehdr h = elim (Bool-cases (ltb (length addr) 64)) [
  | inl e ↦ absurd (short (rw e at h))
  | inr e ↦ ground arith
]
  where
    short : failed erange ≡ got ehdr → ⊥
    short k = ground arith

program_header-fault :
    (order : Order) (addr : Bytes) (ehdr : Ehdr) (off : ℕ)
    → 64 ≤ length addr
    → off_mod ≤ off + 56
    → off < off_mod
    → length addr < off
    → program_header order class64 addr ehdr off ≡ fault
unfolding program_header copy phdr_size
program_header-fault order addr ehdr off l lo hi far = rw (inside, outside) refl
  where
    inside : ltb (length addr) ((off + 56) % off_mod) ≡ false
    inside = ground arith

    outside : leb (off + 56) (length addr) ≡ false
    outside = ground arith

iterates :
    (order : Order) (addr : Bytes) (ehdr : Ehdr) (k : ℕ)
    → ehdr.ei_class ≡ 2
    → ehdr.e_type ≡ 2
    → ehdr.e_phnum ≡ suc k
    → program_header order class64 addr ehdr ehdr.e_phoff ≡ fault
    → interp_result (on_got (got ehdr) (iterate_header order addr 3 has_interp_callback)) ≡ fault
unfolding iterate_header on_class iterate_class elf64_iterate_for_pt iterate_for_pt interp_result
    on_got
iterates order addr ehdr k c t p f = simp (c, t, p, f)

-- An executable ELF file, of type ET_EXEC and of 64 bits, that is shorter than 2 ^ 63 bytes, can be
-- mapped, and has at least one program header, of which the first begins fewer than sizeof(Elf64_Phdr)
-- bytes before 2 ^ 64: __elf_has_interp reads out of the mapping of the file.
pub has_interp-faults :
    (order : Order) (image : Image) (n k : ℕ) (addr : Bytes) (ehdr : Ehdr)
    → image.st_size ≡ reply n
    → image.mmap n ≡ reply addr
    → length addr ≡ n
    → n < 9223372036854775808
    → elf_header order addr ≡ got ehdr
    → ehdr.ei_class ≡ 2
    → ehdr.e_type ≡ 2
    → ehdr.e_phnum ≡ suc k
    → off_mod ≤ ehdr.e_phoff + 56
    → ehdr.e_phoff < off_mod
    → has_interp order image ≡ fault
unfolding has_interp iterate_shared_object_for_pt on_host
has_interp-faults order image n k addr ehdr size map l b e c t p lo hi =
    rw (size, nonempty, map, e)
      (rw
        (iterates order addr ehdr k c t p
          (program_header-fault order addr ehdr ehdr.e_phoff long lo hi far))
        refl)
  where
    long : 64 ≤ length addr
    long = elf_header-long order addr ehdr e

    nonempty : (n == 0) ≡ false
    nonempty = ground (arith, long)

    far : length addr < ehdr.e_phoff
    far = omega arith
