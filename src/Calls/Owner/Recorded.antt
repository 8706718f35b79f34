-- ===== src/Calls/Owner/Recorded.antt =====
-- What chown records.
use iamroot.Base.{
  subst, ℕ, ◌≡◌, ap, refl, Bool, true, false, Option, none, some, ◌∷◌, List, if◌then◌else◌, ◌==◌,
  ==_iff, if_intro,
}
use iamroot.Base.Bytes.{Bytes, path_max}
use iamroot.Base.Errno.{Reply, reply, refuse, eperm}
use iamroot.Path.Realpath.{ok}
use iamroot.Path.Resolution.{cwd, at_none, pr_none, path_resolution2}
use iamroot.Calls.{
  Host, Proc, Ran, back, crashed, stuck, Attribute, Call, next_chown, unset, or_unset,
  set_attribute, get_attribute, remove_attribute, uid_attribute, gid_attribute, settle, call,
  ignore_eperm, finally, on_path, resolve2,
}
use iamroot.Calls.Owner.{recorded_or, change_owner, chown}

-- If there is a result, these calls were made.
abbrev Made : List Call → Ran ℕ → Type 0
Made log (back r q) = q.log ≡ log
Made log crashed = Unit
Made log stuck = Unit

settle-Made : (p : Proc) (c : Call) (r : Reply ℕ) → Made (c ∷ p.log) (settle p c r)
unfolding settle
settle-Made p c (reply n) = refl
settle-Made p c (refuse e) = refl

ignore_eperm-Made : (log : List Call) (e : ℕ) (r : Ran ℕ) → Made log r → Made log (ignore_eperm e r)
unfolding ignore_eperm
ignore_eperm-Made log e (back none q) m =
    if_intro (Made log) (q.errno == eperm) _ _ (λ x. m) (λ x. m)
ignore_eperm-Made log e (back (some n) q) m = m
ignore_eperm-Made log e crashed m = tt
ignore_eperm-Made log e stuck m = tt

-- An attribute is set to the value that it is compared with: it is removed.
removes :
    (log : List Call) (a : Attribute) (path : Bytes) (v w : ℕ) (r : Ran ℕ)
    → v ≡ w
    → Made log r
    → Made (remove_attribute path a ∷ log) (finally (set_attribute a path v w) r)
unfolding finally set_attribute
removes log a path v w (back n q) e m =
    rw ((==_iff v w).1 e) (ap (λ l. remove_attribute path a ∷ l) m)
removes log a path v w crashed e m = tt
removes log a path v w stuck e m = tt

-- The owner that is asked for is the one that is recorded, or none is.
abbrev pub Same : Host → Proc → Bytes → Attribute → ℕ → Type 0
Same h p buf a asked = recorded_or h a buf asked p ≡ asked

pub Same-unrecorded :
    (h : Host) (p : Proc) (buf : Bytes) (a : Attribute) (asked : ℕ)
    → h.attribute p.log buf a ≡ none
    → Same h p buf a asked
unfolding recorded_or get_attribute or_unset
Same-unrecorded h p buf a asked e = rw e refl

pub Same-recorded :
    (h : Host) (p : Proc) (buf : Bytes) (a : Attribute) (asked : ℕ)
    → h.attribute p.log buf a ≡ some asked
    → Same h p buf a asked
unfolding recorded_or get_attribute or_unset
Same-recorded h p buf a asked e = rw e (if_same (asked == unset) asked)
  where
    if_same : (b : Bool) (n : ℕ) → (if b then n else n) ≡ n
    if_same true n = refl
    if_same false n = refl

chown-Made :
    (rounds : ℕ) (h : Host) (path : Option Bytes) (buf : Bytes) (owner group : ℕ) (p : Proc)
    → path_resolution2 rounds (h.fs p.log) p.env p.errno cwd path path_max at_none pr_none ≡ ok buf
    → Same h p buf uid_attribute owner
    → Same h p buf gid_attribute group
    → Made
        (remove_attribute buf gid_attribute
          ∷ remove_attribute buf uid_attribute
          ∷ next_chown buf owner group
          ∷ p.log)
        (chown rounds h path owner group p)
unfolding chown resolve2 on_path change_owner call
chown-Made rounds h path buf owner group p resolved u g =
    rw (resolved, u, g)
      (removes _ gid_attribute buf group group _ refl (
        removes _ uid_attribute buf owner owner _ refl
          (ignore_eperm-Made _ p.errno _ (settle-Made p (next_chown buf owner group) _))))

-- Where neither an owner nor a group is recorded, or the ones that are asked for are, chown records
-- none: whatever the host answers, it calls it, and then removes both attributes.
pub chown-removes :
    (rounds : ℕ) (h : Host) (path : Option Bytes) (buf : Bytes) (owner group : ℕ) (p q : Proc)
    (ret : Option ℕ)
    → path_resolution2 rounds (h.fs p.log) p.env p.errno cwd path path_max at_none pr_none ≡ ok buf
    → Same h p buf uid_attribute owner
    → Same h p buf gid_attribute group
    → chown rounds h path owner group p ≡ back ret q
    → q.log
      ≡ remove_attribute buf gid_attribute
        ∷ remove_attribute buf uid_attribute
        ∷ next_chown buf owner group
        ∷ p.log
chown-removes rounds h path buf owner group p q ret resolved u g e =
    subst (Made _) e (chown-Made rounds h path buf owner group p resolved u g)
