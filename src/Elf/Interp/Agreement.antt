-- ===== src/Elf/Interp/Agreement.antt =====
-- __elf_interp of an ELF file does not depend on the byte order of the host.
use iamroot.Base.{
  ℕ, zero, suc, ◌+◌, ◌%◌, ◌≤◌, ◌≡◌, ◌∙◌, refl, ap, sym, inl, inr, Bool-cases, ltb, ◌==◌, length,
  take, arith,
}
use iamroot.Base.Bytes.{Bytes, streq}
use mathlib.Core.Path.{fun_ext}
use iamroot.Base.Errno.{Reply, reply, refuse, enoexec}
use iamroot.Elf.{
  Order, Class, class32, class64, Ehdr, ehdr32, ehdr64, load_phdr, phdr_size, byte_at, half_at,
  word_at, long_at,
}
use iamroot.Elf.Fields.{AllBytes, IsEncoding, half_at-encoded, word_at-encoded, long_at-encoded}
use iamroot.Elf.Interp.{
  File, elf_magic, on_reply, all_of, on_class, load_ehdr, elf_ehdr, at_start, felf_header, elf_phdr,
  find_interp, elf_interp32, elf_interp64, interp_of, felf_interp, off_mod,
}

-- read(2) and pread(2) give bytes.
pub record GivesBytes (f : File) : Type 0 where
  pub of_read : (n : ℕ) (bs : Bytes) → f.read n ≡ reply bs → AllBytes bs
  pub of_pread : (n off : ℕ) (bs : Bytes) → f.pread n off ≡ reply bs → AllBytes bs

module _ (o1 o2 : Order) (e : ℕ) (bs : Bytes) where
  half_at_same :
      (off : ℕ)
      → IsEncoding e
      → AllBytes bs
      → off + 2 ≤ length bs
      → half_at o1 e bs off ≡ half_at o2 e bs off
  half_at_same off k v l =
      half_at-encoded o1 e bs off k v l ∙ sym (half_at-encoded o2 e bs off k v l)

  word_at_same :
      (off : ℕ)
      → IsEncoding e
      → AllBytes bs
      → off + 4 ≤ length bs
      → word_at o1 e bs off ≡ word_at o2 e bs off
  word_at_same off k v l =
      word_at-encoded o1 e bs off k v l ∙ sym (word_at-encoded o2 e bs off k v l)

  long_at_same :
      (off : ℕ)
      → IsEncoding e
      → AllBytes bs
      → off + 8 ≤ length bs
      → long_at o1 e bs off ≡ long_at o2 e bs off
  long_at_same off k v l =
      long_at-encoded o1 e bs off k v l ∙ sym (long_at-encoded o2 e bs off k v l)

  load_phdr_same :
      (c : Class)
      → IsEncoding e
      → AllBytes bs
      → phdr_size c ≤ length bs
      → load_phdr o1 c e bs ≡ load_phdr o2 c e bs
  unfolding load_phdr phdr_size
  load_phdr_same class32 k v l = λ i. record {
    p_type = word_at_same 0 k v (omega arith) i;
    p_offset = word_at_same 4 k v (omega arith) i;
    p_vaddr = word_at_same 8 k v (omega arith) i;
    p_paddr = word_at_same 12 k v (omega arith) i;
    p_filesz = word_at_same 16 k v (omega arith) i;
    p_memsz = word_at_same 20 k v (omega arith) i;
    p_flags = word_at_same 24 k v (omega arith) i;
    p_align = word_at_same 28 k v (omega arith) i;
  }
  load_phdr_same class64 k v l = λ i. record {
    p_type = word_at_same 0 k v (omega arith) i;
    p_flags = word_at_same 4 k v (omega arith) i;
    p_offset = long_at_same 8 k v (omega arith) i;
    p_vaddr = long_at_same 16 k v (omega arith) i;
    p_paddr = long_at_same 24 k v (omega arith) i;
    p_filesz = long_at_same 32 k v (omega arith) i;
    p_memsz = long_at_same 40 k v (omega arith) i;
    p_align = long_at_same 48 k v (omega arith) i;
  }

-- Two continuations that agree on what is read
all_of_same {ℓ} :
    {B : Type ℓ} (n : ℕ) (r : Reply Bytes) (k1 k2 : Bytes → Reply B)
    → ((bs : Bytes) → r ≡ reply bs → n ≤ length bs → k1 bs ≡ k2 bs)
    → all_of n r k1 ≡ all_of n r k2
unfolding all_of
all_of_same n (refuse e) k1 k2 h = refl
all_of_same n (reply bs) k1 k2 h = elim (Bool-cases (ltb (length bs) n)) [
  | inl e ↦ rw e refl
  | inr e ↦ rw e (h bs refl (ground arith))
]

on_reply_same {ℓ κ} :
    {A : Type ℓ} {B : Type κ} (r1 r2 : Reply A) (k1 k2 : A → Reply B)
    → r1 ≡ r2
    → ((a : A) → k1 a ≡ k2 a)
    → on_reply r1 k1 ≡ on_reply r2 k2
unfolding on_reply
on_reply_same (reply a) r2 k1 k2 h k = k a ∙ ap (λ r. on_reply r k2) h
on_reply_same (refuse e) r2 k1 k2 h k = ap (λ r. on_reply r k2) h

on_reply_refuse {ℓ κ} :
    {A : Type ℓ} {B : Type κ} (e : ℕ) (m1 m2 : A → Reply B)
    → on_reply (refuse e) m1 ≡ on_reply (refuse e) m2
unfolding on_reply
on_reply_refuse e m1 m2 = refl

started_same {ℓ κ} :
    {A : Type ℓ} {B : Type κ} (r : Reply ℕ) (n : ℕ) (s : Reply Bytes) (k1 k2 : Bytes → Reply A)
    (m1 m2 : A → Reply B)
    → ((bs : Bytes) → s ≡ reply bs → n ≤ length bs → on_reply (k1 bs) m1 ≡ on_reply (k2 bs) m2)
    → on_reply (at_start r (all_of n s k1)) m1 ≡ on_reply (at_start r (all_of n s k2)) m2
unfolding at_start on_reply all_of
started_same (reply zero) n (reply bs) k1 k2 m1 m2 h = elim (Bool-cases (ltb (length bs) n)) [
  | inl e ↦ rw e refl
  | inr e ↦ rw e (h bs refl (ground arith))
]
started_same (reply zero) n (refuse e) k1 k2 m1 m2 h = refl
started_same (reply (suc m)) n s k1 k2 m1 m2 h = refl
started_same (refuse e) n s k1 k2 m1 m2 h = refl

module _ (o1 o2 : Order) (f : File) where
  elf_phdr_same :
      (c : Class) (h1 h2 : Ehdr) (off : ℕ)
      → GivesBytes f
      → IsEncoding h1.ei_data
      → h1.ei_data ≡ h2.ei_data
      → elf_phdr o1 f c h1 off ≡ elf_phdr o2 f c h2 off
  unfolding elf_phdr
  elf_phdr_same c h1 h2 off g k d = rw (sym d) (
      all_of_same _ (f.pread (phdr_size c) off) _ _
        λ bs e l. ap reply (load_phdr_same o1 o2 h1.ei_data bs c k (g.of_pread _ _ bs e) l))

  find_interp_same :
      (c : Class) (h1 h2 : Ehdr) (bufsiz n off : ℕ)
      → GivesBytes f
      → IsEncoding h1.ei_data
      → h1.ei_data ≡ h2.ei_data
      → find_interp o1 f c h1 bufsiz n off ≡ find_interp o2 f c h2 bufsiz n off
  unfolding find_interp
  find_interp_same c h1 h2 bufsiz zero off g k d = refl
  find_interp_same c h1 h2 bufsiz (suc n) off g k d =
      on_reply_same _ _ _ _ (elf_phdr_same c h1 h2 off g k d)
        λ phdr. rw (find_interp_same c h1 h2 bufsiz n ((off + phdr_size c) % off_mod) g k d) refl

  interp_same :
      (c : Class) (h1 h2 : Ehdr) (bufsiz : ℕ)
      → GivesBytes f
      → IsEncoding h1.ei_data
      → h1.ei_data ≡ h2.ei_data
      → h1.e_phnum ≡ h2.e_phnum
      → h1.e_phoff ≡ h2.e_phoff
      → interp_of o1 f h1 bufsiz c ≡ interp_of o2 f h2 bufsiz c
  unfolding interp_of elf_interp32 elf_interp64
  interp_same class32 h1 h2 bufsiz g k d n o =
      find_interp_same class32 h1 h2 bufsiz h1.e_phnum h1.e_phoff g k d ∙ λ i.
      find_interp o2 f class32 h2 bufsiz (n i) (o i)
  interp_same class64 h1 h2 bufsiz g k d n o =
      find_interp_same class64 h1 h2 bufsiz h1.e_phnum h1.e_phoff g k d ∙ λ i.
      find_interp o2 f class64 h2 bufsiz (n i) (o i)

  -- The interpreter of the file with this header
  found : Order → ℕ → Bytes → Class → Reply Bytes
  found o bufsiz bs c = interp_of o f (load_ehdr o c bs) bufsiz c

  found_same :
      (c : Class) (bufsiz : ℕ) (bs : Bytes)
      → GivesBytes f
      → IsEncoding (byte_at bs 5)
      → AllBytes bs
      → 64 ≤ length bs
      → found o1 bufsiz bs c ≡ found o2 bufsiz bs c
  unfolding found load_ehdr ehdr32 ehdr64
  found_same class32 bufsiz bs g k v l =
      interp_same class32 (ehdr32 o1 bs) (ehdr32 o2 bs) bufsiz g k refl
        (half_at_same o1 o2 (byte_at bs 5) bs 44 k v (omega arith))
        (word_at_same o1 o2 (byte_at bs 5) bs 28 k v (omega arith))
  found_same class64 bufsiz bs g k v l =
      interp_same class64 (ehdr64 o1 bs) (ehdr64 o2 bs) bufsiz g k refl
        (half_at_same o1 o2 (byte_at bs 5) bs 56 k v (omega arith))
        (long_at_same o1 o2 (byte_at bs 5) bs 32 k v (omega arith))

  -- The rest of __felf_interp, once the header has been read
  rest_of : Order → ℕ → Ehdr → Reply Bytes
  rest_of o bufsiz ehdr = on_class ehdr.ei_class (interp_of o f ehdr bufsiz) (refuse enoexec)

  loaded : Order → ℕ → Bytes → Reply Bytes
  loaded o bufsiz bs =
      on_reply (on_class (byte_at bs 4) (λ c. reply (load_ehdr o c bs)) (refuse enoexec))
        (rest_of o bufsiz)

  loaded-found :
      (o : Order) (bufsiz : ℕ) (bs : Bytes)
      → loaded o bufsiz bs ≡ on_class (byte_at bs 4) (found o bufsiz bs) (refuse enoexec)
  unfolding loaded found rest_of on_class on_reply load_ehdr ehdr32 ehdr64
  loaded-found o bufsiz bs = elim (Bool-cases (byte_at bs 4 == 1)) [
    | inl e ↦ rw e (rw e refl)
    | inr e ↦ rw e (elim (Bool-cases (byte_at bs 4 == 2)) [
      | inl e2 ↦ rw e2 (rw (e, e2) refl)
      | inr e2 ↦ rw e2 refl
    ])
  ]

  loaded_same :
      (bufsiz : ℕ) (bs : Bytes)
      → GivesBytes f
      → IsEncoding (byte_at bs 5)
      → AllBytes bs
      → 64 ≤ length bs
      → loaded o1 bufsiz bs ≡ loaded o2 bufsiz bs
  loaded_same bufsiz bs g k v l =
      loaded-found o1 bufsiz bs
      ∙ ap (λ k. on_class (byte_at bs 4) k (refuse enoexec))
          (fun_ext λ c. found_same c bufsiz bs g k v l)
      ∙ sym (loaded-found o2 bufsiz bs)

  -- The interpreter that __felf_interp gives, or its error, is the same on a little-endian host and
  -- on a big-endian one, for every file whose header says one of the two encodings, if read and
  -- pread give bytes.
  pub felf_interp_same :
      (bufsiz : ℕ)
      → GivesBytes f
      → ((bs : Bytes) → f.read 64 ≡ reply bs → IsEncoding (byte_at bs 5))
      → felf_interp o1 f bufsiz ≡ felf_interp o2 f bufsiz
  unfolding felf_interp felf_header elf_ehdr loaded rest_of
  felf_interp_same bufsiz g k =
      started_same f.rewind 64 (f.read 64) _ _ (rest_of o1 bufsiz) (rest_of o2 bufsiz) λ bs e l.
        elim (Bool-cases (streq (take 4 bs) elf_magic)) [
          | inl m ↦ rw m (loaded_same bufsiz bs g (k bs e) (g.of_read 64 bs e) l)
          | inr m ↦ rw m (on_reply_refuse enoexec (rest_of o1 bufsiz) (rest_of o2 bufsiz))
        ]
