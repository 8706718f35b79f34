-- ===== src/Elf/Interp/Found.antt =====
-- The segment that __elf_interp32 and __elf_interp64 take the interpreter from.
use iamroot.Base.{
  ℕ, zero, suc, ◌+◌, ◌*◌, ◌%◌, ◌≤◌, ◌<◌, ◌≡◌, ◌≢◌, ◌∙◌, refl, ap, sym, inl, inr, Bool-cases, ltb,
  ◌==◌, length, arith,
}
use iamroot.Base.Bytes.{Bytes}
use iamroot.Base.Errno.{Reply, reply, refuse, eio}
use iamroot.Elf.{Order, Class, class32, class64, Ehdr, Phdr, phdr_size}
use iamroot.Elf.Interp.{
  File, on_reply, all_of, elf_phdr, read_interp, find_interp, off_mod, pt_interp,
}

-- Where the program header i begins
abbrev pub phdr_offset : Class → ℕ → ℕ → ℕ
phdr_offset c off i = (off + i * phdr_size c) % off_mod

module _ (o : Order) (f : File) (c : Class) (ehdr : Ehdr) where
  -- The header i, from an offset on, is the first one of type PT_INTERP, all before it can be read,
  -- and bs are the bytes of its segment, which fit into the buffer.
  pub record IsFirst (off bufsiz i : ℕ) (bs : Bytes) : Type 0 where
    pub phdr : Phdr
    pub is_header : elf_phdr o f c ehdr (phdr_offset c off i) ≡ reply phdr
    pub is_interp : phdr.p_type ≡ pt_interp
    pub fits : phdr.p_filesz ≤ bufsiz
    pub is_segment : f.pread phdr.p_filesz phdr.p_offset ≡ reply bs
    pub is_whole : phdr.p_filesz ≤ length bs
    pub before :
        (j : ℕ)
        → j < i
        → (q : Phdr) × (elf_phdr o f c ehdr (phdr_offset c off j) ≡ reply q)
          × (q.p_type ≢ pt_interp)

all_of-replies {ℓ} :
    {B : Type ℓ} (n : ℕ) (r : Reply Bytes) (k : Bytes → Reply B) (b : B)
    → all_of n r k ≡ reply b
    → (bs : Bytes) × (r ≡ reply bs) × (n ≤ length bs) × (k bs ≡ reply b)
unfolding all_of
all_of-replies n (refuse e) k b h = ground arith
all_of-replies n (reply bs) k b h = elim (Bool-cases (ltb (length bs) n)) [
  | inl e ↦ absurd (short (rw e at h))
  | inr e ↦ (bs, refl, ground arith, rw e at h)
]
  where
    short : refuse eio ≢ reply b
    short = ground arith

on_reply-replies {ℓ κ} :
    {A : Type ℓ} {B : Type κ} (r : Reply A) (k : A → Reply B) (b : B)
    → on_reply r k ≡ reply b
    → (a : A) × (r ≡ reply a) × (k a ≡ reply b)
unfolding on_reply
on_reply-replies (refuse e) k b h = ground arith
on_reply-replies (reply a) k b h = (a, refl, h)

read_interp-replies :
    (f : File) (bufsiz : ℕ) (phdr : Phdr) (bs : Bytes)
    → read_interp f bufsiz phdr ≡ reply bs
    → (phdr.p_filesz ≤ bufsiz)
      × (f.pread phdr.p_filesz phdr.p_offset ≡ reply bs)
      × (phdr.p_filesz ≤ length bs)
unfolding read_interp
read_interp-replies f bufsiz phdr bs h = elim (Bool-cases (ltb bufsiz phdr.p_filesz)) [
  | inl e ↦ absurd (too_long (rw e at h))
  | inr e ↦
      let (cs, read, l, same) = all_of-replies phdr.p_filesz _ reply bs (rw e at h) in
      (ground arith, read ∙ same, subst_length cs same l)
]
  where
    too_long : refuse eio ≢ reply bs
    too_long = ground arith

    subst_length :
        (cs : Bytes) → reply cs ≡ reply bs → phdr.p_filesz ≤ length cs → phdr.p_filesz ≤ length bs
    subst_length cs same l = ground arith

phdr_offset-suc :
    (c : Class) (off i : ℕ)
    → phdr_offset c ((off + phdr_size c) % off_mod) i ≡ phdr_offset c off (suc i)
unfolding phdr_size
phdr_offset-suc class32 off i = omega arith
phdr_offset-suc class64 off i = omega arith

module _ (o : Order) (f : File) (c : Class) (ehdr : Ehdr) where
  IsFirst-here :
      (off bufsiz : ℕ) (bs : Bytes) (phdr : Phdr)
      → off < off_mod
      → elf_phdr o f c ehdr off ≡ reply phdr
      → phdr.p_type ≡ pt_interp
      → read_interp f bufsiz phdr ≡ reply bs
      → IsFirst o f c ehdr off bufsiz 0 bs
  IsFirst-here off bufsiz bs phdr k e t r = record {
    phdr = phdr;
    is_header = ap (elf_phdr o f c ehdr) {x = phdr_offset c off 0} (omega arith) ∙ e;
    is_interp = t;
    fits = (read_interp-replies f bufsiz phdr bs r).0;
    is_segment = (read_interp-replies f bufsiz phdr bs r).1;
    is_whole = (read_interp-replies f bufsiz phdr bs r).2;
    before = λ j l. absurd (omega arith);
  }

  IsFirst-later :
      (off bufsiz i : ℕ) (bs : Bytes) (phdr : Phdr)
      → off < off_mod
      → elf_phdr o f c ehdr off ≡ reply phdr
      → phdr.p_type ≢ pt_interp
      → IsFirst o f c ehdr ((off + phdr_size c) % off_mod) bufsiz i bs
      → IsFirst o f c ehdr off bufsiz (suc i) bs
  IsFirst-later off bufsiz i bs phdr k e t r = record {
    phdr = r.phdr;
    is_header = ap (elf_phdr o f c ehdr) (sym (phdr_offset-suc c off i)) ∙ r.is_header;
    is_interp = r.is_interp;
    fits = r.fits;
    is_segment = r.is_segment;
    is_whole = r.is_whole;
    before = earlier;
  }
    where
      earlier :
          (j : ℕ)
          → j < suc i
          → (q : Phdr) × (elf_phdr o f c ehdr (phdr_offset c off j) ≡ reply q)
            × (q.p_type ≢ pt_interp)
      earlier zero l =
          (phdr, ap (elf_phdr o f c ehdr) {x = phdr_offset c off 0} (omega arith) ∙ e, t)
      earlier (suc j) l = (
        (r.before j (omega arith)).0,
        ap (elf_phdr o f c ehdr) (sym (phdr_offset-suc c off j)) ∙ (r.before j (omega arith)).1,
        (r.before j (omega arith)).2,
      )

  -- An interpreter that __elf_interp32 or __elf_interp64 finds among n program headers from an
  -- offset on is the segment of the first header of type PT_INTERP, it was read whole, and its size
  -- is at most that of the buffer.
  pub find_interp-IsFirst :
      (bufsiz n off : ℕ) (bs : Bytes)
      → off < off_mod
      → find_interp o f c ehdr bufsiz n off ≡ reply bs
      → (i : ℕ) × (i < n) × IsFirst o f c ehdr off bufsiz i bs
  unfolding find_interp
  find_interp-IsFirst bufsiz zero off bs k h = ground arith
  find_interp-IsFirst bufsiz (suc n) off bs k h =
      let (phdr, e, g) = on_reply-replies _ _ bs h in
      elim (Bool-cases (phdr.p_type == pt_interp)) [
        | inl t ↦ (0, omega arith, IsFirst-here off bufsiz bs phdr k e (ground arith) (rw t at g))
        | inr t ↦
            let (i, l, r) =
              find_interp-IsFirst bufsiz n ((off + phdr_size c) % off_mod) bs (omega arith)
                (rw t at g) in
            (suc i, omega arith, IsFirst-later off bufsiz i bs phdr k e (ground arith) r)
      ]
