-- ===== src/Calls/Rootdir/Inside.antt =====
-- The working directory of a process in a chroot.
use iamroot.Base.{
  ℕ, ◌<◌, ◌≡◌, ◌∙◌, sym, ap, refl, subst, true, false, Option, none, some, [], ◌∷◌, ◌++◌, length,
  drop, arith,
}
use iamroot.Base.Bytes.{
  Bytes, codes, path_max, strnlen, streq, strleq, strncmp_eq, strncmp_eq-append,
}
use iamroot.Base.Errno.{Reply, reply, refuse}
use iamroot.Path.Text.{is_nil}
use iamroot.Path.Realpath.{Outcome, ok, fail, overrun, out_of_fuel}
use iamroot.Root.{getrootdir, setrootdir, chrootdir, striprootdir, or_top_within}
use iamroot.Calls.{
  Host, Proc, Ran, back, crashed, stuck, Call, next_chdir, on_path, settle, on_success, resolve2,
  call,
}
use iamroot.Calls.Rootdir.{leave_root, check_root, strip_cwd, getcwd, chdir}

drop-append : (a b : Bytes) → drop (length a) (a ++ b) ≡ b
drop-append [] b = refl
drop-append (c ∷ a) b = drop-append a b

strnlen-short : (r : Bytes) → length r < path_max → strnlen r path_max ≡ length r
strnlen-short r k = omega arith

strncmp_eq-prefix : (p t : Bytes) → strncmp_eq (length p) p (p ++ t) ≡ true
unfolding strncmp_eq
strncmp_eq-prefix [] t = refl
strncmp_eq-prefix (c ∷ p) t = ground (arith, strncmp_eq-prefix p t)

-- A directory below the root directory, without the root directory
striprootdir-append :
    (root rest : Bytes)
    → streq root (codes "/") ≡ false
    → length root < path_max
    → is_nil rest ≡ false
    → striprootdir (some root) (root ++ rest) ≡ rest
unfolding striprootdir getrootdir
striprootdir-append root rest inside short named =
    rw (inside, strnlen-short root short, strncmp_eq-prefix root rest, drop-append root rest)
      (kept (length (root ++ rest)) rest named)
  where
    kept : (n : ℕ) (s : Bytes) → is_nil s ≡ false → or_top_within n s ≡ s
    kept n [] e = cc
    kept n (c ∷ s) e = refl

-- If it succeeds in the directory `dir`, the root directory is what chrootdir makes of it.
abbrev Leaves : Host → Option Bytes → Ran ℕ → Type 0
Leaves h env (back (some n) q) =
    (dir : Bytes) → (h.fs q.log).getcwd ≡ reply dir → q.env ≡ chrootdir env dir
Leaves h env (back none q) = Unit
Leaves h env crashed = Unit
Leaves h env stuck = Unit

leave_root-Leaves :
    (h : Host) (p : Proc) (r : Reply Bytes)
    → (h.fs p.log).getcwd ≡ r
    → Leaves h p.env (leave_root p r)
unfolding leave_root
leave_root-Leaves h p (reply found) e = λ dir f. ap (chrootdir p.env) (same (sym e ∙ f))
  where
    same : {a b : Bytes} → reply a ≡ reply b → a ≡ b
    same f = cc f
leave_root-Leaves h p (refuse n) e = tt

settle-Leaves :
    (h : Host) (p : Proc) (c : Call) (r : Reply ℕ)
    → Leaves h p.env (on_success (check_root h) (settle p c r))
unfolding on_success settle check_root
settle-Leaves h p c (reply n) = leave_root-Leaves h (record p { log = c ∷ p.log }) _ refl
settle-Leaves h p c (refuse e) = tt

on_path-Leaves :
    (h : Host) (p : Proc) (o : Outcome Bytes) (k : Bytes → Ran ℕ)
    → ((buf : Bytes) → Leaves h p.env (k buf))
    → Leaves h p.env (on_path p o k)
unfolding on_path
on_path-Leaves h p (ok buf) k f = f buf
on_path-Leaves h p (fail e) k f = tt
on_path-Leaves h p overrun k f = tt
on_path-Leaves h p out_of_fuel k f = tt

chdir-Leaves :
    (rounds : ℕ) (h : Host) (path : Option Bytes) (p : Proc)
    → Leaves h p.env (chdir rounds h path p)
unfolding chdir resolve2 call
chdir-Leaves rounds h path p =
    on_path-Leaves h p _ _
      λ buf. settle-Leaves h p (next_chdir buf) (h.answer p.log (next_chdir buf))

chrootdir-inside :
    (root rest : Bytes) → length root < path_max → chrootdir (some root) (root ++ rest) ≡ some root
unfolding chrootdir getrootdir strleq
chrootdir-inside root rest short = rw (strnlen-short root short, strncmp_eq-append root rest) refl

getcwd-below :
    (h : Host) (q : Proc) (dir rest : Bytes)
    → (h.fs q.log).getcwd ≡ reply dir
    → striprootdir q.env dir ≡ rest
    → getcwd h q ≡ back (some rest) q
unfolding getcwd strip_cwd
getcwd-below h q dir rest there stripped = rw (there, stripped) refl

-- A process in the chroot `root` changes to a directory that the host knows as `rest` below the root
-- directory: it stays in the chroot, and getcwd says `rest`.
pub chdir-getcwd :
    (rounds : ℕ) (h : Host) (path : Option Bytes) (p q : Proc) (ret : ℕ) (root rest : Bytes)
    → p.env ≡ some root
    → streq root (codes "/") ≡ false
    → length root < path_max
    → is_nil rest ≡ false
    → chdir rounds h path p ≡ back (some ret) q
    → (h.fs q.log).getcwd ≡ reply (root ++ rest)
    → (q.env ≡ some root) × (getcwd h q ≡ back (some rest) q)
chdir-getcwd rounds h path p q ret root rest env inside short named e there = (
  stays,
  getcwd-below h q (root ++ rest) rest there (
      ap (λ v. striprootdir v (root ++ rest)) stays
      ∙ striprootdir-append root rest inside short named),
)
  where
    stays : q.env ≡ some root
    stays =
        subst (Leaves h p.env) e (chdir-Leaves rounds h path p) (root ++ rest) there
        ∙ ap (λ v. chrootdir v (root ++ rest)) env
        ∙ chrootdir-inside root rest short

-- A process that changes to a directory whose name does not begin with the root directory's has left
-- the chroot.
pub chdir-leaves :
    (rounds : ℕ) (h : Host) (path : Option Bytes) (p q : Proc) (ret : ℕ) (dir : Bytes)
    → strleq dir (getrootdir p.env) ≡ false
    → chdir rounds h path p ≡ back (some ret) q
    → (h.fs q.log).getcwd ≡ reply dir
    → q.env ≡ none
unfolding chrootdir setrootdir
chdir-leaves rounds h path p q ret dir outside e there =
    subst (Leaves h p.env) e (chdir-Leaves rounds h path p) dir there ∙ rw outside refl
