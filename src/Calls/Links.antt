-- ===== src/Calls/Links.antt =====
-- renameat.c, renameat2.c, rename.c, linkat.c, link.c, symlinkat.c and symlink.c.
use iamroot.Base.{ℕ, Option}
use iamroot.Base.Bytes.{Bytes}
use iamroot.Path.Resolution.{Dirfd, cwd, AtFlags, at_none, at_nofollow, pr_none, pr_nowalkalong}
use iamroot.Calls.{
  Host, Proc, Ran, next_renameat, next_renameat2, next_linkat, next_symlinkat, resolve2, call,
}

module _ (rounds : ℕ) (h : Host) where
  unfoldable pub renameat : Dirfd → Option Bytes → Dirfd → Option Bytes → Proc → Ran ℕ
  renameat olddfd oldpath newdfd newpath p =
      resolve2 rounds h p olddfd oldpath at_nofollow pr_nowalkalong λ oldbuf.
        resolve2 rounds h p newdfd newpath at_nofollow pr_nowalkalong
          λ newbuf. call h p (next_renameat olddfd oldbuf newdfd newbuf)

  unfoldable pub renameat2 : Dirfd → Option Bytes → Dirfd → Option Bytes → ℕ → Proc → Ran ℕ
  renameat2 olddfd oldpath newdfd newpath flags p =
      resolve2 rounds h p olddfd oldpath at_nofollow pr_none λ oldbuf.
        resolve2 rounds h p newdfd newpath at_nofollow pr_none
          λ newbuf. call h p (next_renameat2 olddfd oldbuf newdfd newbuf flags)

  unfoldable pub rename : Option Bytes → Option Bytes → Proc → Ran ℕ
  rename oldpath newpath p = renameat cwd oldpath cwd newpath p

  unfoldable pub linkat : Dirfd → Option Bytes → Dirfd → Option Bytes → AtFlags → Proc → Ran ℕ
  linkat olddfd oldpath newdfd newpath atflags p =
      resolve2 rounds h p olddfd oldpath atflags pr_none λ oldbuf.
        resolve2 rounds h p newdfd newpath at_none pr_none
          λ newbuf. call h p (next_linkat olddfd oldbuf newdfd newbuf atflags)

  unfoldable pub link : Option Bytes → Option Bytes → Proc → Ran ℕ
  link oldpath newpath p = linkat cwd oldpath cwd newpath at_none p

  unfoldable pub symlinkat : Bytes → Dirfd → Option Bytes → Proc → Ran ℕ
  symlinkat string dfd path p =
      resolve2 rounds h p dfd path at_nofollow pr_none
        λ buf. call h p (next_symlinkat string dfd buf)

  unfoldable pub symlink : Bytes → Option Bytes → Proc → Ran ℕ
  symlink string path p = symlinkat string cwd path p
