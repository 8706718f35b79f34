-- ===== src/Elf/Executable/Sound.antt =====
-- What a program is like that __can_exec lets iamroot run.
use iamroot.Base.{
  ==_iff, ℕ, true, false, not, ◌&&◌, ◌==◌, ltb, length, take, ◌≡◌, ◌≢◌, ◌⊎◌, inl, inr, refl,
  Bool-cases, arith,
}
use iamroot.Base.Bytes.{Bytes, streq, streq_iff}
use iamroot.Base.Bits.{has_bit}
use iamroot.Base.Errno.{Reply, reply, refuse, eio, enoexec, enotsup}
use iamroot.Elf.{Order}
use iamroot.Elf.Interp.{elf_magic}
use iamroot.Elf.Mapped.{Access, got, failed, on_host, Image, has_interp}
use iamroot.Elf.Executable.{Program, Candidate, script_magic, on_magic, fcan_exec, can_exec}

-- A file is empty, it is a script, or it is an ELF file that names a loader.
abbrev pub Runs : Order → Image → Bytes → Type 0
Runs order image magic =
    (length magic ≡ 0)
    ⊎ ((take 2 magic ≡ script_magic)
        ⊎ ((take 4 magic ≡ elf_magic) × (has_interp order image ≡ got 1)))

on_host-got {ℓ κ} :
    {A : Type ℓ} {B : Type κ} (r : Reply A) (k : A → Access B) (b : B)
    → on_host r k ≡ got b
    → (a : A) × (r ≡ reply a) × (k a ≡ got b)
unfolding on_host
on_host-got (reply a) k b h = (a, refl, h)
on_host-got (refuse e) k b h = ground arith

refused : (e : ℕ) → ◌≢◌ {A = Access ℕ} (failed e) (got 1)
refused e = ground arith

on_magic-Runs :
    (order : Order) (image : Image) (magic : Bytes)
    → on_magic order image magic ≡ got 1
    → Runs order image magic
unfolding on_magic
on_magic-Runs order image magic h =
    elim (Bool-cases (not (length magic == 0) && ltb (length magic) 4)) [
      | inl e ↦ absurd (refused eio (rw e at h))
      | inr e ↦ elim (Bool-cases (length magic == 0)) [
        | inl z ↦ inl ((==_iff _ 0).0 z)
        | inr z ↦ inr (elim (Bool-cases (streq (take 2 magic) script_magic)) [
          | inl s ↦ inl ((streq_iff _ script_magic).0 s)
          | inr s ↦ elim (Bool-cases (streq (take 4 magic) elf_magic)) [
            | inl m ↦ inr ((streq_iff _ elf_magic).0 m, rw (e, z, s, m) at h)
            | inr m ↦ absurd (refused enotsup (rw (e, z, s, m) at h))
          ]
        ])
      ]
    ]

-- Where __can_exec says 1, the file has no S_ISUID, fstat says that its user may execute it, and it
-- is empty, begins with #!, or is an ELF file in which __elf_has_interp finds a loader.
pub can_exec-Runs :
    (order : Order) (c : Candidate)
    → can_exec order c ≡ got 1
    → (host_mode : ℕ) × (p : Program) × (mode : ℕ) × (magic : Bytes) × (c.st_mode ≡ reply host_mode)
      × (has_bit 11 host_mode ≡ false)
      × (c.opened ≡ reply p)
      × (p.st_mode ≡ reply mode)
      × (has_bit 6 mode ≡ true)
      × (p.read 4 ≡ reply magic)
      × Runs order p.image magic
unfolding can_exec fcan_exec
can_exec-Runs order c h =
    let (host_mode, st, h1) = on_host-got c.st_mode _ 1 h in
    elim (Bool-cases (has_bit 11 host_mode)) [
      | inl s ↦ absurd (not_one (rw s at h1))
      | inr s ↦
          let (p, o, h2) = on_host-got c.opened _ 1 (rw s at h1) in
          let (mode, m, h3) = on_host-got p.st_mode _ 1 h2 in
          elim (Bool-cases (has_bit 6 mode)) [
            | inl x ↦
                let (magic, r, h4) = on_host-got (p.read 4) _ 1 (rw x at h3) in
                (host_mode, p, mode, magic, st, s, o, m, x, r, on_magic-Runs order p.image magic h4)
            | inr x ↦ absurd (refused enoexec (rw x at h3))
          ]
    ]
  where
    not_one : ◌≢◌ {A = Access ℕ} (got 0) (got 1)
    not_one = ground arith
