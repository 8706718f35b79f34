-- ===== src/Loader/Machine/Laws.antt =====
-- The machine names tell the machines of ELF headers apart.
use iamroot.Base.{
  ℕ, ◌≡◌, refl, subst, ◌∙◌, sym, Bool, true, false, ◌&&◌, ◌||◌, Option, none, some, ◌==◌,
  if◌then◌else◌, arith,
}
use iamroot.Base.Bytes.{Bytes, codes, streq}
use iamroot.Loader.{Target}
use iamroot.Loader.Machine.{
  machine, is_x86, is_x86_64, is_arm, is_armhf, is_aarch64, is_aarch64_be, is_riscv, is_mipsle,
  is_powerpc, is_powerpc64, is_powerpc64le, is_s390, is_32_bits, is_64_bits, is_gnu_linux, is_musl,
}

-- e_machine, from the name
machine_number : Bytes → ℕ
machine_number m =
    if streq m (codes "i686") || streq m (codes "i386")
    then 3
    else if streq m (codes "x86_64")
    then 62
    else if streq m (codes "arm") || streq m (codes "armhf")
    then 40
    else if streq m (codes "aarch64") || streq m (codes "aarch64_be")
    then 183
    else if streq m (codes "riscv64") || streq m (codes "riscv")
    then 243
    else if streq m (codes "mipsle") || streq m (codes "mips64le")
    then 8
    else if streq m (codes "powerpc")
    then 20
    else if streq m (codes "powerpc64") || streq m (codes "powerpc64le")
    then 21
    else 22

-- What the name says of the header
Names : Target → Option Bytes → Type 0
Names t none = Unit
Names t (some m) = machine_number m ≡ t.ehdr.e_machine

first_of : (a b : Bool) → (a && b) ≡ true → a ≡ true
first_of true b h = refl
first_of false b h = h

Names-none : (t : Target) → Names t none
unfolding Names
Names-none t = tt

-- One branch of __machine
branch :
    (t : Target) (b : Bool) (m : Bytes) (rest : Option Bytes)
    → (b ≡ true → machine_number m ≡ t.ehdr.e_machine)
    → Names t rest
    → Names t (if b then some m else rest)
unfolding Names
branch t true m rest h k = h refl
branch t false m rest h k = k

-- A branch with two names
fork :
    (t : Target) (b c : Bool) (m n : Bytes) (rest : Option Bytes)
    → (b ≡ true → machine_number m ≡ t.ehdr.e_machine)
    → (b ≡ true → machine_number n ≡ t.ehdr.e_machine)
    → Names t rest
    → Names t (if b then (if c then some m else some n) else rest)
unfolding Names
fork t true true m n rest h k r = h refl
fork t true false m n rest h k r = k refl
fork t false c m n rest h k r = r

-- A test of e_machine, alone or with another test
tested : (e n : ℕ) → (e == n) ≡ true → n ≡ e
tested e n h = ground arith

tested_first : (e n : ℕ) (b : Bool) → ((e == n) && b) ≡ true → n ≡ e
tested_first e n b h = tested e n (first_of (e == n) b h)

machine-Names : (t : Target) → Names t (machine t)
unfolding machine machine_number streq is_x86 is_x86_64 is_arm is_armhf is_aarch64 is_aarch64_be
    is_riscv is_mipsle is_powerpc is_powerpc64 is_powerpc64le is_s390
machine-Names t = fork t (is_x86 t) (is_gnu_linux t || is_musl t) _ _ _ (tested e 3) (tested e 3) (
    branch t (is_x86_64 t) _ _ (tested e 62) (
      branch t (is_arm t) _ _ (tested_first e 40 _) (
        branch t (is_armhf t) _ _ (tested_first e 40 _) (
          branch t (is_aarch64 t) _ _ (tested_first e 183 _) (
            branch t (is_aarch64_be t) _ _ (tested_first e 183 _) (
              fork t (is_riscv t) (is_gnu_linux t || is_musl t) _ _ _ (tested e 243) (tested e 243)
                (branch t (is_mipsle t && is_32_bits t) _ _
                  (λ h. tested_first e 8 _ (first_of (is_mipsle t) _ h))
                  (branch t (is_mipsle t && is_64_bits t) _ _
                    (λ h. tested_first e 8 _ (first_of (is_mipsle t) _ h))
                    (branch t (is_powerpc t) _ _ (tested_first e 20 _) (
                      branch t (is_powerpc64 t) _ _ (tested_first e 21 _) (
                        branch t (is_powerpc64le t) _ _ (tested_first e 21 _)
                          (branch t (is_s390 t) _ none (tested e 22) (Names-none t)))))))))))))
  where
    e : ℕ
    e = t.ehdr.e_machine

-- Two programs for which __machine gives the same name have the same e_machine.
pub machine_same :
    (s t : Target) (m : Bytes)
    → machine s ≡ some m
    → machine t ≡ some m
    → s.ehdr.e_machine ≡ t.ehdr.e_machine
unfolding Names
machine_same s t m h k = sym (named s h) ∙ named t k
  where
    named : (u : Target) → machine u ≡ some m → machine_number m ≡ u.ehdr.e_machine
    named u h = subst (Names u) h (machine-Names u)
