-- ===== src/Calls/Owner.antt =====
-- chown.c, lchown.c, fchown.c and fchownat.c: the owner and the group that are recorded.
pub mod Recorded
use iamroot.Base.{ℕ, Option, if◌then◌else◌, ◌==◌}
use iamroot.Base.Bytes.{Bytes}
use iamroot.Path.Resolution.{Dirfd, cwd, AtFlags, at_none, at_nofollow, pr_none, pr_nowalkalong}
use iamroot.Calls.{
  Host, Proc, Ran, Attribute, Call, next_chown, next_lchown, next_fchown, next_fchownat,
  uid_attribute, gid_attribute, unset, ignore_eperm, finally, set_attribute, get_attribute,
  resolve2, resolve_fd, call,
}

module _ (h : Host) where
  -- owner = __get_uid(buf); if (owner == (uid_t)-1) owner = oldowner;
  unfoldable pub recorded_or : Attribute → Bytes → ℕ → Proc → ℕ
  recorded_or a buf asked p = let id = get_attribute h a buf p in if id == unset then asked else id

  -- From `owner = __get_uid(buf)` to `__set_gid(buf, oldgroup, group)`.
  unfoldable pub change_owner : Bytes → ℕ → ℕ → (ℕ → ℕ → Call) → Proc → Ran ℕ
  change_owner buf oldowner oldgroup next p =
      let owner = recorded_or uid_attribute buf oldowner p in
      let group = recorded_or gid_attribute buf oldgroup p in
      finally (set_attribute gid_attribute buf oldgroup group) (
        finally (set_attribute uid_attribute buf oldowner owner)
          (ignore_eperm p.errno (call h p (next owner group))))

module _ (rounds : ℕ) (h : Host) where
  unfoldable pub chown : Option Bytes → ℕ → ℕ → Proc → Ran ℕ
  chown path owner group p =
      resolve2 rounds h p cwd path at_none pr_none
        λ buf. change_owner h buf owner group (next_chown buf) p

  unfoldable pub lchown : Option Bytes → ℕ → ℕ → Proc → Ran ℕ
  lchown path owner group p =
      resolve2 rounds h p cwd path at_nofollow pr_nowalkalong
        λ buf. change_owner h buf owner group (next_lchown buf) p

  unfoldable pub fchown : Dirfd → ℕ → ℕ → Proc → Ran ℕ
  fchown dfd owner group p =
      resolve_fd rounds h p dfd λ buf. change_owner h buf owner group (next_fchown dfd) p

  unfoldable pub fchownat : Dirfd → Option Bytes → ℕ → ℕ → AtFlags → Proc → Ran ℕ
  fchownat dfd path owner group atflags p =
      resolve2 rounds h p dfd path atflags pr_none
        λ buf. change_owner h buf owner group (λ u g. next_fchownat dfd buf u g atflags) p
