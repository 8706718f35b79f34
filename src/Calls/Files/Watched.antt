-- ===== src/Calls/Files/Watched.antt =====
-- What the host is asked to watch.
use iamroot.Base.{ℕ, ◌≡◌, refl, subst, inl, inr, ◌⊎◌, List, ◌∷◌, Option}
use iamroot.Base.Bytes.{Bytes}
use iamroot.Base.Errno.{Reply, reply, refuse}
use iamroot.Path.Realpath.{Outcome, ok, fail, overrun, out_of_fuel}
use iamroot.Calls.{
  Host, Proc, Ran, back, crashed, stuck, Call, next_inotify_add_watch, on_path, settle, resolve2,
  call,
}
use iamroot.Calls.Files.{inotify_add_watch}

-- If there is a result, the call c was made, or none.
abbrev Made : Call → List Call → Ran ℕ → Type 0
Made c log (back r q) = (q.log ≡ c ∷ log) ⊎ (q.log ≡ log)
Made c log crashed = Unit
Made c log stuck = Unit

settle-Made : (p : Proc) (c : Call) (r : Reply ℕ) → Made c p.log (settle p c r)
unfolding settle
settle-Made p c (reply n) = inl refl
settle-Made p c (refuse e) = inl refl

on_path-Made :
    (p : Proc) (c : Call) (o : Outcome Bytes) (k : Bytes → Ran ℕ)
    → ((buf : Bytes) → Made c p.log (k buf))
    → Made c p.log (on_path p o k)
unfolding on_path
on_path-Made p c (ok buf) k f = f buf
on_path-Made p c (fail e) k f = inr refl
on_path-Made p c overrun k f = tt
on_path-Made p c out_of_fuel k f = tt

inotify_add_watch-Made :
    (rounds : ℕ) (h : Host) (fd : ℕ) (path : Bytes) (mask : ℕ) (p : Proc)
    → Made (next_inotify_add_watch fd path mask) p.log (inotify_add_watch rounds h fd path mask p)
unfolding inotify_add_watch resolve2 call
inotify_add_watch-Made rounds h fd path mask p =
    on_path-Made p _ _ _ λ buf. settle-Made p (next_inotify_add_watch fd path mask) _

-- Whatever the root directory is and the path name resolves to, inotify_add_watch asks the host to
-- watch the path name of the program as it is, or nothing.
pub inotify_add_watch-as_it_is :
    (rounds : ℕ) (h : Host) (fd : ℕ) (path : Bytes) (mask : ℕ) (p q : Proc) (ret : Option ℕ)
    → inotify_add_watch rounds h fd path mask p ≡ back ret q
    → (q.log ≡ next_inotify_add_watch fd path mask ∷ p.log) ⊎ (q.log ≡ p.log)
inotify_add_watch-as_it_is rounds h fd path mask p q ret e =
    subst (Made (next_inotify_add_watch fd path mask) p.log) e
      (inotify_add_watch-Made rounds h fd path mask p)
