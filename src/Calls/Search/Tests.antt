-- ===== src/Calls/Search/Tests.antt =====
-- sh in /usr/bin, which the host does not let in, and in /bin
use iamroot.Base.{ℕ, ◌+◌, ltb, ◌≡◌, refl, false, [], ◌∷◌, none, some, if◌then◌else◌}
use iamroot.Base.Bytes.{Bytes, codes, streq, name_max, strnlen, strncpy}
use iamroot.Base.Errno.{Reply, reply, refuse, enoent, eacces}
use iamroot.Path.Text.{is_nil}
use iamroot.Path.Realpath.Tests.{sample}
use iamroot.Path.Resolution.{cwd}
use iamroot.Calls.{Host, Proc, back, Call, next_faccessat, call, settle}
use iamroot.Calls.Search.{
  directories, extend, candidate, goes_on, answered, search, search_path, ask_host, copy_found,
  host_path_access,
}
use iamroot.Calls.Search.First.{IsFirst, host_path_access-IsFirst}

verdict : Bytes → Reply ℕ
unfolding streq
verdict b = if streq b (codes "/bin/sh") then reply 0 else refuse eacces

answer : Call → Reply ℕ
answer (next_faccessat dfd b mode flags) = verdict b
answer c = refuse enoent

abbrev host : Host
host = record {
  fs = λ log. sample;
  answer = λ log c. answer c;
  lstat = λ log path. refuse enoent;
  fstatat = λ log dfd path atflags. refuse enoent;
  listing = λ log c. refuse enoent;
  attribute = λ log path a. none;
  is_directory = λ log path. false;
  fis_directory = λ log dfd. false;
}

abbrev before : Proc
before = record { env = none; errno = 0; log = [] }

abbrev path : Bytes
path = codes "/usr/bin:/bin:/sbin"

abbrev asked : Bytes → Call
asked b = next_faccessat cwd b 1 0

abbrev after : Proc
after = record {
  env = none;
  errno = 0;
  log = asked (codes "/bin/sh") ∷ asked (codes "/usr/bin/sh") ∷ [];
}

finds :
    host_path_access host (codes "sh") 1 (some path) 4096 before
    ≡ back (some (codes "/bin/sh")) after
unfolding host_path_access search_path search answered ask_host copy_found call settle goes_on
    directories extend candidate answer verdict
finds = refl

host_path_access-IsFirst_example :
    (b : Bytes) × IsFirst verdict (codes "sh") (strnlen path 4095 + 1) (directories path) b
    × (codes "/bin/sh" ≡ strncpy b 4096)
    × (is_nil (codes "sh") ≡ false)
    × (ltb name_max (strnlen (codes "sh") (name_max + 1)) ≡ false)
unfolding answer
host_path_access-IsFirst_example =
    host_path_access-IsFirst host 1 verdict 4096 (codes "sh") path before after (codes "/bin/sh")
      (record { says = λ log b. refl }) finds
