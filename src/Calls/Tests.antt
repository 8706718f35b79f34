-- ===== src/Calls/Tests.antt =====
-- Calls of a process in the chroot /srv/r, and the theorems about them at concrete inputs.
use iamroot.Base.{
  ◌⊎◌, ℕ, ◌≡◌, refl, Bool, true, false, ◌&&◌, List, [], ◌∷◌, Option, none, some, if◌then◌else◌,
  arith,
}
use iamroot.Base.Bytes.{Bytes, codes, streq, streq_refl, strneq, strleq}
use iamroot.Base.Bits.{has_bit, bit_and, bit_or, bit_clear}
use iamroot.Base.Errno.{Reply, reply, refuse, eperm}
use iamroot.Path.Sanitize.{path_sanitize}
use iamroot.Path.Realpath.{fuel, realpathat}
use iamroot.Path.Realpath.Tests.{sample}
use iamroot.Path.Resolution.{
  path_resolution2, add_prefix, on_prefixed, follow_links, try_realpath, keep_below, root_prefix,
  strip_prefix, strip_ignored, print_path,
}
use iamroot.Root.{getrootdir, chrootdir}
use iamroot.Calls.{
  Host, Proc, Ran, back, Attribute, mode_attribute, uid_attribute, gid_attribute, Call, next_chmod,
  next_chown, record_attribute, remove_attribute, on_path, settle, ignore_eperm, finally,
  on_success, set_attribute, or_unset, resolve2, call, get_attribute,
}
use iamroot.Calls.{next_chdir}
use iamroot.Calls.Mode.{chmod, user_mode, set_user_mode}
use iamroot.Calls.{next_inotify_add_watch}
use iamroot.Calls.Files.{inotify_add_watch}
use iamroot.Calls.Files.Watched.{inotify_add_watch-as_it_is}
use iamroot.Calls.Owner.{chown, change_owner, recorded_or}
use iamroot.Calls.Owner.Recorded.{chown-removes}
use iamroot.Calls.Rootdir.{chdir, leave_root, check_root, getcwd}
use iamroot.Calls.Rootdir.Inside.{chdir-getcwd}
use iamroot.Calls.Status.{shown_mode}
use iamroot.Calls.Status.Shown.{KeepsAttributes, shown_mode-set_attribute}
use iamroot.Calls.Requests.{Request, ask_chmod, serve, next, serve_all}

same_attribute : Attribute → Attribute → Bool
same_attribute mode_attribute mode_attribute = true
same_attribute uid_attribute uid_attribute = true
same_attribute gid_attribute gid_attribute = true
same_attribute _ _ = false

-- The attribute as the last call that was about it left it
last_recorded : List Call → Bytes → Attribute → Option ℕ
last_recorded [] path a = none
last_recorded (record_attribute p b v ∷ log) path a =
    let before = last_recorded log path a in
    if streq p path && same_attribute b a then some v else before
last_recorded (remove_attribute p b ∷ log) path a =
    let before = last_recorded log path a in
    if streq p path && same_attribute b a then none else before
last_recorded (c ∷ log) path a = last_recorded log path a

answer : Call → Reply ℕ
answer (next_chown path owner group) = refuse eperm
answer c = reply 0

host : Host
unfolding sample last_recorded answer same_attribute
host = record {
  fs = λ log. sample;
  answer = λ log c. answer c;
  lstat = λ log path. reply (record { st_mode = 33152; st_uid = 1000; st_gid = 1000 });
  fstatat =
      λ log dfd path atflags. reply (record { st_mode = 33152; st_uid = 1000; st_gid = 1000 });
  listing = λ log c. refuse eperm;
  attribute = λ log path a. last_recorded log path a;
  is_directory = λ log path. false;
  fis_directory = λ log dfd. false;
}

abbrev before : Proc
before = record { env = some (codes "/srv/r"); errno = 0; log = [] }

-- Names what the runs compute with.
run : List Request → Ran ℕ
unfolding path_resolution2 host fuel streq strneq add_prefix print_path root_prefix getrootdir
    strip_prefix strleq on_prefixed follow_links try_realpath realpathat path_sanitize strip_ignored
    keep_below serve_all serve next chmod user_mode set_user_mode bit_and bit_or bit_clear resolve2
    on_path call settle ignore_eperm finally on_success set_attribute get_attribute or_unset
run rs = serve_all fuel host rs before

-- chmod("/bin/sh", 0444)
abbrev after : Proc
after = record {
  env = some (codes "/srv/r");
  errno = 0;
  log =
      record_attribute (codes "/srv/r/usr/bin/sh") mode_attribute 292
      ∷ next_chmod (codes "/srv/r/usr/bin/sh") 420
      ∷ [];
}

read_only : run (ask_chmod (some (codes "/bin/sh")) 292 ∷ []) ≡ back (some 0) after
unfolding run
read_only = refl

same_attribute_self : (a : Attribute) → same_attribute a a ≡ true
unfolding same_attribute
same_attribute_self mode_attribute = refl
same_attribute_self uid_attribute = refl
same_attribute_self gid_attribute = refl

host-KeepsAttributes : KeepsAttributes host
unfolding host
host-KeepsAttributes = record {
  recorded = λ log path a v. rw (streq_refl path, same_attribute_self a) refl;
  removed = λ log path a. rw (streq_refl path, same_attribute_self a) refl;
}

-- It is not shown.
shown_mode-set_attribute_example :
    has_bit 7 (
      shown_mode
        (get_attribute host mode_attribute
          (codes "/srv/r/x")
          (set_attribute mode_attribute (codes "/srv/r/x") 292 420 before))
        33188)
    ≡ false
unfolding has_bit
shown_mode-set_attribute_example =
    shown_mode-set_attribute host (codes "/srv/r/x") 292 420 33188 7 before host-KeepsAttributes
      (omega arith) (omega arith) refl

-- chown("/bin/sh", 5, 6) records nothing.
abbrev owned : Proc
owned = record {
  env = some (codes "/srv/r");
  errno = 0;
  log =
      remove_attribute (codes "/srv/r/usr/bin/sh") gid_attribute
      ∷ remove_attribute (codes "/srv/r/usr/bin/sh") uid_attribute
      ∷ next_chown (codes "/srv/r/usr/bin/sh") 5 6
      ∷ [];
}

chown-removes_example :
    owned.log
    ≡ remove_attribute (codes "/srv/r/usr/bin/sh") gid_attribute
      ∷ remove_attribute (codes "/srv/r/usr/bin/sh") uid_attribute
      ∷ next_chown (codes "/srv/r/usr/bin/sh") 5 6
      ∷ []
unfolding run chown change_owner recorded_or
chown-removes_example =
    chown-removes fuel host (some (codes "/bin/sh")) (codes "/srv/r/usr/bin/sh") 5 6 before owned
      (some 0) refl refl refl refl

-- chdir("/home"), in a directory that the host calls /srv/r/home
abbrev home : Proc
home = record {
  env = some (codes "/srv/r");
  errno = 0;
  log = next_chdir (codes "/srv/r/home") ∷ [];
}

chdir-getcwd_example :
    (home.env ≡ some (codes "/srv/r")) × (getcwd host home ≡ back (some (codes "/home")) home)
unfolding run chdir leave_root check_root chrootdir
chdir-getcwd_example =
    chdir-getcwd fuel host (some (codes "/home")) before home 0 (codes "/srv/r") (codes "/home")
      refl refl (omega arith) refl refl refl

-- The same out of the chroot /jail
abbrev jailed : Proc
jailed = record { env = some (codes "/jail"); errno = 0; log = [] }

abbrev freed : Proc
freed = record { env = none; errno = 0; log = next_chdir (codes "/jail/x") ∷ [] }

-- inotify_add_watch(3, "/bin/sh", 1)
abbrev watched : Proc
watched = record {
  env = some (codes "/srv/r");
  errno = 0;
  log = next_inotify_add_watch 3 (codes "/bin/sh") 1 ∷ [];
}

inotify_add_watch-as_it_is_example :
    (watched.log ≡ next_inotify_add_watch 3 (codes "/bin/sh") 1 ∷ []) ⊎ (watched.log ≡ [])
unfolding run inotify_add_watch
inotify_add_watch-as_it_is_example =
    inotify_add_watch-as_it_is fuel host 3 (codes "/bin/sh") 1 before watched (some 0) refl
