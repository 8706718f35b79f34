-- ===== src/Identity/Laws.antt =====
-- What the program reads of the numbers that it has set.
use iamroot.Base.{
  ℕ, ◌<◌, ◌≡◌, ◌≢◌, ◌∙◌, sym, ap, refl, true, false, List, some, ◌==◌, if◌then◌else◌, inl, inr,
  Bool-cases, arith,
}
use iamroot.Base.Bytes.{Bytes, streq, streq_refl}
use iamroot.Base.Errno.{Reply, reply, refuse}
use iamroot.Env.{getenv, setenv, valid, has_equals}
use iamroot.Env.Laws.{getenv-setenv}
use iamroot.Identity.{
  IdKind, uid, euid, suid, gid, egid, sgid, fsuid, fsgid, variable, no_id, or_zero, to_id, get_id,
  store_id, set_id, set_given, and_then, set_re, setreuid, store_given, setuid, getuid, geteuid,
  getgid, getegid, setresuid,
}
use iamroot.Identity.Numbers.{print_unsigned, strtoul-print_unsigned}

-- The number of i is `id`, and the others are as they were.
pub record Changed (i : IdKind) (id : ℕ) (env new : List Bytes) : Type 0 where
  pub this : get_id i new ≡ id
  pub others : (j : IdKind) → variable i ≢ variable j → get_id j new ≡ get_id j env

-- A reply with the property; there is one.
abbrev pub Gives : (List Bytes → Type 0) → Reply (List Bytes) → Type 0
Gives P (reply new) = P new
Gives P (refuse e) = ⊥

setenv-succeeds :
    (i : IdKind) (value : Bytes) (env : List Bytes)
    → (new : List Bytes) × (setenv (variable i) value true env ≡ reply new)
unfolding setenv valid has_equals
setenv-succeeds uid value env = (_, refl)
setenv-succeeds euid value env = (_, refl)
setenv-succeeds suid value env = (_, refl)
setenv-succeeds gid value env = (_, refl)
setenv-succeeds egid value env = (_, refl)
setenv-succeeds sgid value env = (_, refl)
setenv-succeeds fsuid value env = (_, refl)
setenv-succeeds fsgid value env = (_, refl)

read_back :
    (i : IdKind) (id : ℕ) (new : List Bytes)
    → id < 4294967296
    → getenv (variable i) new ≡ some (print_unsigned id)
    → get_id i new ≡ id
unfolding get_id or_zero to_id
read_back i id new h e = rw (e, strtoul-print_unsigned id h) (omega arith)

same :
    (j : IdKind) (env new : List Bytes)
    → getenv (variable j) new ≡ getenv (variable j) env
    → get_id j new ≡ get_id j env
unfolding get_id
same j env new e = rw e refl

store_id-Changed :
    (i : IdKind) (id : ℕ) (env : List Bytes)
    → id < 4294967296
    → Gives (Changed i id env) (store_id i id env)
unfolding store_id
store_id-Changed i id env h =
    let (new, e) = setenv-succeeds i (print_unsigned id) env in
    rw e (record {
      this =
          read_back i id new h
            (getenv-setenv (variable i) (print_unsigned id) (variable i) env new e).0;
      others = λ j differ.
          same j env new
            ((getenv-setenv (variable i) (print_unsigned id) (variable j) env new e).1 differ);
    })

-- The number of i is `id`, unless that is (uid_t)-1, and the others are as they were.
record Given (i : IdKind) (id : ℕ) (env new : List Bytes) : Type 0 where
  this : get_id i new ≡ (if id == no_id then get_id i env else id)
  others : (j : IdKind) → variable i ≢ variable j → get_id j new ≡ get_id j env

Gives-and_then :
    (P Q : List Bytes → Type 0) (r : Reply (List Bytes)) (f : List Bytes → Reply (List Bytes))
    → Gives P r
    → ((env : List Bytes) → P env → Gives Q (f env))
    → Gives Q (and_then r f)
unfolding and_then
Gives-and_then P Q (reply env) f h k = k env h
Gives-and_then P Q (refuse e) f h k = absurd h

Changed-Given :
    (i : IdKind) (id : ℕ) (env : List Bytes) (r : Reply (List Bytes))
    → (id == no_id) ≡ false
    → Gives (Changed i id env) r
    → Gives (Given i id env) r
Changed-Given i id env (reply new) n c = record { this = rw n c.this; others = c.others }
Changed-Given i id env (refuse e) n c = absurd c

store_given-Given :
    (i : IdKind) (id : ℕ) (env : List Bytes)
    → id < 4294967296
    → Gives (Given i id env) (store_given i id env)
unfolding store_given
store_given-Given i id env h = elim (Bool-cases (id == no_id)) [
  | inl n ↦ rw n (record { this = rw n refl; others = λ j differ. refl })
  | inr n ↦ rw n (Changed-Given i id env _ n (store_id-Changed i id env h))
]

set_given-Given :
    (i : IdKind) (id : ℕ) (env : List Bytes)
    → id < 4294967296
    → Gives (Given i id env) (set_given i id env)
unfolding set_given set_id
set_given-Given i id env h = elim (Bool-cases (id == no_id)) [
  | inl n ↦ rw n (record { this = rw n refl; others = λ j differ. refl })
  | inr n ↦ rw n (Changed-Given i id env _ n (store_id-Changed i id env h))
]

-- Three numbers are set as setresuid does it, and `others` are not.
record Three (real effective saved : IdKind) (r e s : ℕ) (env new : List Bytes) : Type 0 where
  reals : get_id real new ≡ (if r == no_id then get_id real env else r)
  effectives : get_id effective new ≡ (if e == no_id then get_id effective env else e)
  saveds : get_id saved new ≡ (if s == no_id then get_id saved env else s)
  others :
      (j : IdKind)
      → variable real ≢ variable j
      → variable effective ≢ variable j
      → variable saved ≢ variable j
      → get_id j new ≡ get_id j env

set_re-Three :
    (real effective saved : IdKind) (r e s : ℕ) (env : List Bytes)
    → variable effective ≢ variable real
    → variable effective ≢ variable saved
    → variable real ≢ variable effective
    → variable real ≢ variable saved
    → variable saved ≢ variable real
    → variable saved ≢ variable effective
    → r < 4294967296
    → e < 4294967296
    → s < 4294967296
    → Gives
        (Three real effective saved r e s env)
        (and_then (set_re real effective r e env) (store_given saved s))
unfolding set_re
set_re-Three real effective saved r e s env er es re rs sr se hr he hs =
    Gives-and_then (λ b. (a : List Bytes) × Given effective e env a × Given real r a b) _ _
      (store_given saved s)
      (Gives-and_then (Given effective e env) _ _ (set_given real r)
        (set_given-Given effective e env he)
        (λ a g. pair a g (set_given real r a) (set_given-Given real r a hr)))
      (λ b (a, g, k). three a b g k (store_given saved s b) (store_given-Given saved s b hs))
  where
    pair :
        (a : List Bytes)
        → Given effective e env a
        → (x : Reply (List Bytes)) → Gives (Given real r a) x
        → Gives (λ b. (a : List Bytes) × Given effective e env a × Given real r a b) x
    pair a g (reply b) k = (a, g, k)
    pair a g (refuse n) k = absurd k

    three :
        (a b : List Bytes)
        → Given effective e env a
        → Given real r a b
        → (x : Reply (List Bytes)) → Gives (Given saved s b) x
        → Gives (Three real effective saved r e s env) x
    three a b g k (reply c) l = record {
      reals = l.others real sr ∙ k.this ∙ ap (λ v. if r == no_id then v else r) (g.others real er);
      effectives = l.others effective se ∙ k.others effective re ∙ g.this;
      saveds =
          l.this ∙ ap (λ v. if s == no_id then v else s) (k.others saved rs ∙ g.others saved es);
      others = λ j u v w. l.others j w ∙ k.others j u ∙ g.others j v;
    }
    three a b g k (refuse n) l = absurd l

apart : (i j : IdKind) → streq (variable i) (variable j) ≡ false → variable i ≢ variable j
apart i j h p = cc (sym (streq_refl (variable i)) ∙ ap (streq (variable i)) p ∙ h)

-- setuid of a number below (uid_t)-1 does not fail, getuid then reads that number, and
-- geteuid, getgid and getegid read what they read before.
pub getuid-setuid :
    (id : ℕ) (env : List Bytes)
    → id < no_id
    → (new : List Bytes) × (setuid id env ≡ reply new)
      × (getuid new ≡ id)
      × (geteuid new ≡ geteuid env)
      × (getgid new ≡ getgid env)
      × (getegid new ≡ getegid env)
unfolding setuid set_id getuid geteuid getgid getegid streq
getuid-setuid id env h =
    rw given (result (store_id uid id env) (store_id-Changed uid id env (omega arith)))
  where
    given : (id == no_id) ≡ false
    given = ground arith

    result :
        (x : Reply (List Bytes))
        → Gives (Changed uid id env) x
        → (new : List Bytes) × (x ≡ reply new)
          × (getuid new ≡ id)
          × (geteuid new ≡ geteuid env)
          × (getgid new ≡ getgid env)
          × (getegid new ≡ getegid env)
    result (reply new) c = (
      new,
      refl,
      c.this,
      c.others euid (apart uid euid refl),
      c.others gid (apart uid gid refl),
      c.others egid (apart uid egid refl),
    )
    result (refuse n) c = absurd c

-- setresuid of three numbers of 32 bits does not fail. Afterwards getuid, geteuid and getresuid read the three numbers, or what
-- they read before in place of (uid_t)-1, and the group numbers are as they were.
pub getresuid-setresuid :
    (r e s : ℕ) (env : List Bytes)
    → r < 4294967296
    → e < 4294967296
    → s < 4294967296
    → (new : List Bytes) × (setresuid r e s env ≡ reply new)
      × (getuid new ≡ (if r == no_id then getuid env else r))
      × (geteuid new ≡ (if e == no_id then geteuid env else e))
      × (get_id suid new ≡ (if s == no_id then get_id suid env else s))
      × (getgid new ≡ getgid env)
      × (getegid new ≡ getegid env)
      × (get_id sgid new ≡ get_id sgid env)
unfolding setresuid setreuid getuid geteuid getgid getegid streq
getresuid-setresuid r e s env hr he hs = result _ (
    set_re-Three uid euid suid r e s env (apart euid uid refl) (apart euid suid refl)
      (apart uid euid refl) (apart uid suid refl) (apart suid uid refl) (apart suid euid refl) hr he
      hs)
  where
    result :
        (x : Reply (List Bytes))
        → Gives (Three uid euid suid r e s env) x
        → (new : List Bytes) × (x ≡ reply new)
          × (getuid new ≡ (if r == no_id then getuid env else r))
          × (geteuid new ≡ (if e == no_id then geteuid env else e))
          × (get_id suid new ≡ (if s == no_id then get_id suid env else s))
          × (getgid new ≡ getgid env)
          × (getegid new ≡ getegid env)
          × (get_id sgid new ≡ get_id sgid env)
    result (reply new) t = (
      new,
      refl,
      t.reals,
      t.effectives,
      t.saveds,
      t.others gid (apart uid gid refl) (apart euid gid refl) (apart suid gid refl),
      t.others egid (apart uid egid refl) (apart euid egid refl) (apart suid egid refl),
      t.others sgid (apart uid sgid refl) (apart euid sgid refl) (apart suid sgid refl),
    )
    result (refuse n) t = absurd t
