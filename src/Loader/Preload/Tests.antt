-- ===== src/Loader/Preload/Tests.antt =====
-- Two libraries that need each other, and the theorem about the walk over them.
use iamroot.Base.{◌≡◌, refl, Bool, [], ◌++◌, Option, none, some, if◌then◌else◌, arith}
use iamroot.Base.Bytes.{Bytes, codes, streq, strneq, strncmp_eq}
use iamroot.Identity.Groups.{tokens, strtok}
use iamroot.Calls.{Proc, Ran, back}
use iamroot.Loader.Paths.{basename, path_strncat, is_in_path, any_same}
use iamroot.Loader.Preload.{
  Walked, walked, on_needed, each_needed, preload_needed, preload_executable,
}
use iamroot.Loader.Preload.Ends.{Extends, preload_executable-Extends}

-- What each file needs
needs : Bytes → Option Bytes
unfolding streq
needs path =
    if streq path (codes "/bin/sh")
    then some (codes "liba.so:/opt/libz.so:libb.so")
    else if streq path (codes "/lib/liba.so")
    then some (codes "libb.so:ld.so")
    else if streq path (codes "/lib/libb.so")
    then some (codes "liba.so")
    else none

access : Bytes → Proc → Ran Bytes
access needed p = back (some (codes "/lib/" ++ needed)) p

is_lib : Bytes → Bool
unfolding strneq
is_lib name = strneq name (codes "lib")

abbrev start : Proc
start = record { env = none; errno = 0; log = [] }

run : Bytes → Walked
unfolding preload_executable preload_needed each_needed on_needed needs access is_lib path_strncat
    is_in_path any_same strtok tokens basename strncmp_eq
run buf = preload_executable needs access is_lib 64 64 (codes "/bin/sh") buf start

-- Each library comes once.
both : run (codes "iamroot.so") ≡ walked (codes "iamroot.so:/lib/liba.so:/lib/libb.so") start
unfolding run
both = refl

preload_executable-Extends_example :
    Extends 64
      (codes "iamroot.so")
      (preload_executable needs access is_lib 64 64 (codes "/bin/sh") (codes "iamroot.so") start)
unfolding is_lib
preload_executable-Extends_example =
    preload_executable-Extends needs access is_lib 64 refl (codes "/bin/sh") (codes "iamroot.so")
      start (omega arith)
