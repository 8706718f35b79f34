-- ===== src/Base/Errno.antt =====
-- The error numbers of Linux that the program sets or tests, and results that carry one.
use Prim.Native.Nat.{ℕ}
use mathlib.Core.Path.{◌≡◌, refl}
use mathlib.Core.Logic.{◌⊎◌, inl, inr}

abbrev pub eperm : ℕ
eperm = 1

abbrev pub enoent : ℕ
enoent = 2

abbrev pub eio : ℕ
eio = 5

abbrev pub enoexec : ℕ
enoexec = 8

abbrev pub eacces : ℕ
eacces = 13

abbrev pub enotdir : ℕ
enotdir = 20

abbrev pub einval : ℕ
einval = 22

abbrev pub enospc : ℕ
enospc = 28

abbrev pub erange : ℕ
erange = 34

abbrev pub enametoolong : ℕ
enametoolong = 36

abbrev pub enotsup : ℕ
enotsup = 95

abbrev pub eloop : ℕ
eloop = 40

-- What a call of the host gives back: a value, or -1 with this `errno`.
pub data Reply {ℓ} (A : Type ℓ) : Type ℓ where
  reply : A → Reply A
  refuse : ℕ → Reply A

pub Reply-cases {ℓ} :
    {A : Type ℓ} (r : Reply A) → ((a : A) × (r ≡ reply a)) ⊎ ((e : ℕ) × (r ≡ refuse e))
Reply-cases (reply a) = inl (a, refl)
Reply-cases (refuse e) = inr (e, refl)
