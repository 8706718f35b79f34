-- ===== src/Elf/Mapped.antt =====
-- dso.c: __elf_has_interp, which reads an ELF file that is mapped into memory.
pub mod Safe
pub mod Wraps
use iamroot.Base.{
  ℕ, zero, suc, ◌+◌, ◌%◌, ◌≤◌, Bool, true, false, not, ◌&&◌, ◌||◌, List, [], ◌∷◌, ◌==◌, ltb, leb,
  if◌then◌else◌, length, take, drop,
}
use iamroot.Base.Bytes.{Bytes, streq}
use iamroot.Base.Errno.{Reply, reply, refuse, enoent, enoexec, enotsup, erange}
use iamroot.Elf.{Order, Class, class32, class64, Ehdr, Phdr, load_phdr, phdr_size, byte_at}
use iamroot.Elf.Interp.{elf_magic, load_ehdr, on_class, off_mod}

-- How code that reads the mapping ends: with a value, with -1 and this errno, or with a read out of
-- the mapping.
pub data Access {ℓ} (A : Type ℓ) : Type ℓ where
  got : A → Access A
  failed : ℕ → Access A
  fault : Access A

unfoldable pub on_got {ℓ κ} : {A : Type ℓ} {B : Type κ} → Access A → (A → Access B) → Access B
on_got (got a) k = k a
on_got (failed e) k = failed e
on_got fault k = fault

-- memcpy(to, addr + offset, size), where the mapping is addr
unfoldable pub copy {ℓ} : {B : Type ℓ} → Bytes → ℕ → ℕ → (Bytes → Access B) → Access B
copy addr offset size k =
    if leb (offset + size) (length addr) then k (take size (drop offset addr)) else fault

-- A file: st_size of next_fstat(fd, ...), and mmap(NULL, addrsiz, PROT_READ, MAP_PRIVATE, fd, 0).
pub record Image : Type 0 where
  pub st_size : Reply ℕ
  pub mmap : ℕ → Reply Bytes

-- if (err == -1) return -1;
unfoldable pub on_host {ℓ κ} : {A : Type ℓ} {B : Type κ} → Reply A → (A → Access B) → Access B
on_host (reply a) k = k a
on_host (refuse e) k = failed e

-- A callback of the position and the size of a segment: -1 is `refuse`, 0 is `reply true`, and any
-- other value is `reply false`.
abbrev pub Callback : Type 0
Callback = ℕ → ℕ → Reply Bool

-- What __elf32_iterate_for_pt and __elf64_iterate_for_pt make of the result of the callback
unfoldable pub after_callback : Reply Bool → Access ℕ → Access ℕ
after_callback (refuse e) rest = failed e
after_callback (reply true) rest = got 0
after_callback (reply false) rest = rest

-- What is done with a header of the type
unfoldable pub use_segment : Bytes → Callback → Phdr → Access ℕ → Access ℕ
use_segment addr callback phdr rest =
    if ltb (length addr) phdr.p_offset
    then failed erange
    else after_callback (callback phdr.p_offset phdr.p_filesz) rest

module _ (order : Order) where
  -- __elf_header(addr, addrsiz, ehdr)
  unfoldable pub elf_header : Bytes → Access Ehdr
  elf_header addr =
      if ltb (length addr) 64
      then failed erange
      else copy addr 0 64 λ bs.
        if not (streq (take 4 bs) elf_magic)
        then failed enoexec
        else on_class (byte_at bs 4) (λ c. got (load_ehdr order c bs)) (failed enotsup)

  -- __elf32_program_header and __elf64_program_header: the sum of the size_t wraps.
  unfoldable pub program_header : Class → Bytes → Ehdr → ℕ → Access Phdr
  program_header c addr ehdr offset =
      if ltb (length addr) ((offset + phdr_size c) % off_mod)
      then failed erange
      else copy addr offset (phdr_size c) λ bs. got (load_phdr order c ehdr.ei_data bs)

  -- The loop of __elf32_iterate_for_pt and __elf64_iterate_for_pt, with `num - i` headers left
  unfoldable pub iterate_for_pt : Class → Bytes → Ehdr → ℕ → Callback → ℕ → ℕ → Access ℕ
  iterate_for_pt c addr ehdr p_type callback zero off = failed enoent
  iterate_for_pt c addr ehdr p_type callback (suc n) off =
      on_got (program_header c addr ehdr off) λ phdr.
        let rest = iterate_for_pt c addr ehdr p_type callback n ((off + phdr_size c) % off_mod) in
        if phdr.p_type == p_type then use_segment addr callback phdr rest else rest

  unfoldable pub elf32_iterate_for_pt : Bytes → Ehdr → ℕ → Callback → Access ℕ
  elf32_iterate_for_pt addr ehdr p_type callback =
      iterate_for_pt class32 addr ehdr p_type callback ehdr.e_phnum ehdr.e_phoff

  unfoldable pub elf64_iterate_for_pt : Bytes → Ehdr → ℕ → Callback → Access ℕ
  elf64_iterate_for_pt addr ehdr p_type callback =
      iterate_for_pt class64 addr ehdr p_type callback ehdr.e_phnum ehdr.e_phoff

  unfoldable pub iterate_class : Bytes → Ehdr → ℕ → Callback → Class → Access ℕ
  iterate_class addr ehdr p_type callback class32 = elf32_iterate_for_pt addr ehdr p_type callback
  iterate_class addr ehdr p_type callback class64 = elf64_iterate_for_pt addr ehdr p_type callback

  -- if ((ehdr.e_type != ET_EXEC) && (ehdr.e_type != ET_DYN)), and what follows
  unfoldable pub iterate_header : Bytes → ℕ → Callback → Ehdr → Access ℕ
  iterate_header addr p_type callback ehdr =
      if not (ehdr.e_type == 2) && not (ehdr.e_type == 3)
      then failed enoexec
      else on_class ehdr.ei_class (iterate_class addr ehdr p_type callback) (failed enotsup)

  -- __elf_iterate_shared_object_for_pt(fd, p_type, callback, data)
  unfoldable pub iterate_shared_object_for_pt : Image → ℕ → Callback → Access ℕ
  iterate_shared_object_for_pt image p_type callback = on_host image.st_size λ addrsiz.
      if addrsiz == 0
      then failed erange
      else on_host (image.mmap addrsiz)
          λ addr. on_got (elf_header addr) (iterate_header addr p_type callback)

-- __elf_has_interp_callback(data, datasiz, user), where neither pointer is null, as it is built with
-- NVERBOSE: the message that reads data as a string is left out.
unfoldable pub has_interp_callback : Callback
has_interp_callback data_ datasiz = reply true

-- if (err == -1 && errno != ENOENT), and what follows
unfoldable pub interp_result : Access ℕ → Access ℕ
interp_result (got n) = got 1
interp_result (failed e) = if not (e == enoent) then failed e else got 0
interp_result fault = fault

-- __elf_has_interp(fd)
unfoldable pub has_interp : Order → Image → Access ℕ
has_interp order image =
    interp_result (iterate_shared_object_for_pt order image 3 has_interp_callback)
