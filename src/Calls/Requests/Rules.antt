-- ===== src/Calls/Requests/Rules.antt =====
-- The rules for the calls of the host that a request leads to.
use iamroot.Base.{if_intro, ℕ, refl, ◌≡◌, Option, none, some}
use iamroot.Base.{◌==◌}
use iamroot.Base.Bytes.{Bytes}
use iamroot.Base.Errno.{Reply, reply, refuse, eperm}
use iamroot.Path.Realpath.{Outcome, ok, fail, overrun, out_of_fuel}
use iamroot.Path.Resolution.{Dirfd, AtFlags, PrFlags, pr_none}
use iamroot.Calls.{
  mode_attribute, Host, Proc, Ran, back, crashed, stuck, Attribute, Call, on_path, settle,
  ignore_eperm, finally, on_success, set_attribute, resolve2, resolve_fd, call,
}
use iamroot.Calls.Mode.{open_atflags, openat}
use iamroot.Calls.Requests.{Request}
use iamroot.Calls.Requests.Asked.{by_path, by_fd}
use iamroot.Calls.Owner.{change_owner}
use iamroot.Calls.Rootdir.{leave_root}
use iamroot.Calls.Attributes.{on_name}
use iamroot.Calls.Requests.Made.{Gives, Resolved, Mediated, Made, Made-Cons, Keeps}

module _ (rounds : ℕ) (h : Host) (request : Request) (p0 : Proc) where
  pub settle-Keeps :
      (p : Proc) (c : Call) (r : Reply ℕ)
      → Mediated rounds h request p0 c
      → Made rounds h request p0 p.log
      → Keeps rounds h request p0 (settle p c r)
  unfolding settle
  settle-Keeps p c (reply n) m a = Made-Cons rounds h request p0 c p.log m a
  settle-Keeps p c (refuse e) m a = Made-Cons rounds h request p0 c p.log m a

  pub call-Keeps :
      (p : Proc) (c : Call)
      → Mediated rounds h request p0 c
      → Made rounds h request p0 p.log
      → Keeps rounds h request p0 (call h p c)
  unfolding call
  call-Keeps p c m a = settle-Keeps p c (h.answer p.log c) m a

  pub ignore_eperm-Keeps :
      (e : ℕ) (r : Ran ℕ)
      → Keeps rounds h request p0 r
      → Keeps rounds h request p0 (ignore_eperm e r)
  unfolding ignore_eperm
  ignore_eperm-Keeps e (back none p) a =
      if_intro (Keeps rounds h request p0) (p.errno == eperm) _ _ (λ x. a) (λ x. a)
  ignore_eperm-Keeps e (back (some n) p) a = a
  ignore_eperm-Keeps e crashed a = tt
  ignore_eperm-Keeps e stuck a = tt

  pub set_attribute-Keeps :
      (a : Attribute) (buf : Bytes) (old new : ℕ) (r : Ran ℕ)
      → Resolved rounds h request p0 buf
      → Keeps rounds h request p0 r
      → Keeps rounds h request p0 (finally (set_attribute a buf old new) r)
  unfolding finally set_attribute
  set_attribute-Keeps a buf old new (back n p) m k =
      Made-Cons rounds h request p0 _ p.log
        (if_intro (Mediated rounds h request p0) (old == new) _ _ (λ x. m) (λ x. m)) k
  set_attribute-Keeps a buf old new crashed m k = tt
  set_attribute-Keeps a buf old new stuck m k = tt

  pub on_success-Keeps :
      (f : ℕ → Proc → Ran ℕ) (r : Ran ℕ)
      → ((n : ℕ) (p : Proc) → Made rounds h request p0 p.log → Keeps rounds h request p0 (f n p))
      → Keeps rounds h request p0 r
      → Keeps rounds h request p0 (on_success f r)
  unfolding on_success
  on_success-Keeps f (back (some n) p) k a = k n p a
  on_success-Keeps f (back none p) k a = a
  on_success-Keeps f crashed k a = tt
  on_success-Keeps f stuck k a = tt

  pub on_path-Keeps :
      (p : Proc) (o : Outcome Bytes) (k : Bytes → Ran ℕ)
      → Made rounds h request p0 p.log
      → ((buf : Bytes) → o ≡ ok buf → Keeps rounds h request p0 (k buf))
      → Keeps rounds h request p0 (on_path p o k)
  unfolding on_path
  on_path-Keeps p (ok buf) k a f = f buf refl
  on_path-Keeps p (fail e) k a f = a
  on_path-Keeps p overrun k a f = tt
  on_path-Keeps p out_of_fuel k a f = tt

  pub resolve2-Keeps :
      (dfd : Dirfd) (path : Option Bytes) (atflags : AtFlags) (prflags : PrFlags)
      (k : Bytes → Ran ℕ)
      → Made rounds h request p0 p0.log
      → ((buf : Bytes)
          → Gives rounds h request p0 (by_path dfd path atflags prflags) buf
          → Keeps rounds h request p0 (k buf))
      → Keeps rounds h request p0 (resolve2 rounds h p0 dfd path atflags prflags k)
  unfolding resolve2
  resolve2-Keeps dfd path atflags prflags k a f = on_path-Keeps p0 _ k a f

  pub resolve_fd-Keeps :
      (dfd : Dirfd) (k : Bytes → Ran ℕ)
      → Made rounds h request p0 p0.log
      → ((buf : Bytes)
          → Gives rounds h request p0 (by_fd dfd) buf
          → Keeps rounds h request p0 (k buf))
      → Keeps rounds h request p0 (resolve_fd rounds h p0 dfd k)
  unfolding resolve_fd
  resolve_fd-Keeps dfd k a f = on_path-Keeps p0 _ k a f

  pub on_name-Keeps :
      (p : Proc) (name : Option Bytes) (k : Bytes → Ran ℕ)
      → Made rounds h request p0 p.log
      → ((xname : Bytes) → Keeps rounds h request p0 (k xname))
      → Keeps rounds h request p0 (on_name p name k)
  unfolding on_name
  on_name-Keeps p none k a f = a
  on_name-Keeps p (some xname) k a f = f xname

  pub change_owner-Keeps :
      (buf : Bytes) (owner group : ℕ) (c : ℕ → ℕ → Call) (p : Proc)
      → Resolved rounds h request p0 buf
      → ((u g : ℕ) → Mediated rounds h request p0 (c u g))
      → Made rounds h request p0 p.log
      → Keeps rounds h request p0 (change_owner h buf owner group c p)
  unfolding change_owner
  change_owner-Keeps buf owner group c p b m a =
      set_attribute-Keeps _ buf _ _ _ b (
        set_attribute-Keeps _ buf _ _ _ b (ignore_eperm-Keeps p.errno _ (call-Keeps p _ (m _ _) a)))

  pub openat-Keeps :
      (dfd : Dirfd) (path : Option Bytes) (oflags arg : ℕ)
      → Made rounds h request p0 p0.log
      → ((buf : Bytes)
          → Gives rounds h request p0 (by_path dfd path (open_atflags oflags) pr_none) buf
          → Resolved rounds h request p0 buf)
      → Keeps rounds h request p0 (openat rounds h dfd path oflags arg p0)
  unfolding openat
  openat-Keeps dfd path oflags arg a f =
      resolve2-Keeps dfd path _ _ _ a
        λ buf b. set_attribute-Keeps _ buf _ _ _ (f buf b) (call-Keeps p0 _ (f buf b) a)

  pub leave_root-Keeps :
      (p : Proc) (r : Reply Bytes)
      → Made rounds h request p0 p.log
      → Keeps rounds h request p0 (leave_root p r)
  unfolding leave_root
  leave_root-Keeps p (reply dir) a = a
  leave_root-Keeps p (refuse e) a = a

  -- A change of mode, and a new file
  pub granted-Keeps :
      (buf : Bytes) (old new : ℕ) (c : Call) (p : Proc)
      → Resolved rounds h request p0 buf
      → Mediated rounds h request p0 c
      → Made rounds h request p0 p.log
      → Keeps rounds h request p0
          (finally (set_attribute mode_attribute buf old new) (ignore_eperm p.errno (call h p c)))
  granted-Keeps buf old new c p b m a =
      set_attribute-Keeps mode_attribute buf old new _ b
        (ignore_eperm-Keeps p.errno _ (call-Keeps p c m a))
