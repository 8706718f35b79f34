-- ===== src/Loader/Context.antt =====
-- dso.c: what is known of the program that opens a library by dlopen, by __felf_so_context and
-- __elf_so_context, and where the library is looked for, by __dl_access. What __felf_deflib,
-- __ldso_cache and __execfn answer are parameters.
pub mod Laws
use iamroot.Base.{ℕ, zero, ◌+◌, ◌-◌, Bool, List, Option, none, some, ltb, if◌then◌else◌, length}
use iamroot.Base.Bytes.{Bytes, path_max, strncpy}
use iamroot.Base.Errno.{Reply, reply, refuse, einval}
use iamroot.Path.Realpath.{Outcome, ok, fail, overrun, out_of_fuel}
use iamroot.Elf.{Order}
use iamroot.Elf.Interp.{File}
use iamroot.Calls.{Host, Proc, Ran, back, crashed, stuck}
use iamroot.Calls.Search.{path_access}
use iamroot.Loader.Arguments.{◌>>=◌}
use iamroot.Loader.Paths.{has_slash, getld_library_path}
use iamroot.Loader.Places.{
  felf_flags_1, felf_rpath, felf_runpath, secure_execution_mode, ldso_access,
}
use iamroot.Loader.Prepare.{unless_empty, used}

-- *rpath, *ld_library_path, *runpath, *deflib and *flags_1, where NULL is `none`
pub record Context : Type 0 where
  pub rpath : Option Bytes
  pub ld_library_path : Option Bytes
  pub runpath : Option Bytes
  pub deflib : Option Bytes
  pub flags_1 : ℕ

-- siz = ...; if (siz == -1) return -1; of a text that is written into room bytes, with no check of the
-- room
unfoldable pub written : ℕ → ℕ → Option Bytes → Outcome (Option Bytes)
written errno room none = fail errno
written errno room (some s) = if ltb (length s) room then ok (unless_empty s) else overrun

-- The same of a text that is cut to the room
abbrev pub cut : ℕ → ℕ → Option Bytes → Outcome (Option Bytes)
cut errno room none = fail errno
cut errno room (some s) = if ltb 0 room then ok (unless_empty (strncpy s room)) else overrun

abbrev pub number : ℕ → Option ℕ → Outcome ℕ
number errno none = fail errno
number errno (some n) = ok n

-- The errno is the one with which a text is not found.
module _ (order : Order) (deflib : File → Option Bytes) (env : List Bytes) (errno : ℕ) where
  -- if (!*runpath)
  unfoldable pub rpath_unless : File → ℕ → Option Bytes → Outcome (Option Bytes)
  rpath_unless f room none = written errno room (felf_rpath order f)
  rpath_unless f room (some runpath) = ok none

  -- if (!__secure_execution_mode())
  unfoldable pub library_path_unless : ℕ → Outcome (Option Bytes)
  library_path_unless room =
      if secure_execution_mode env
      then ok none
      else if ltb 0 room
      then ok (unless_empty (getld_library_path room env))
      else overrun

  -- __felf_so_context(fd, ..., buf, bufsiz, offset), where room is bufsiz-offset
  unfoldable pub felf_so_context : File → ℕ → Outcome Context
  felf_so_context f room = written errno room (felf_runpath order f) >>= (λ runpath.
      let room1 = room - used runpath in
      rpath_unless f room1 runpath >>= (λ rpath.
        let room2 = room1 - used rpath in
        library_path_unless room2 >>= (λ library_path.
          cut errno (room2 - used library_path) (deflib f) >>= (λ lib.
            number errno (felf_flags_1 order f) >>= (λ flags_1. ok (record {
              rpath = rpath;
              ld_library_path = library_path;
              runpath = runpath;
              deflib = lib;
              flags_1 = flags_1;
            }))))))

  -- __elf_so_context(path, ...), where `opened` is next_open(path, O_RDONLY | O_CLOEXEC, 0)
  unfoldable pub elf_so_context : Reply File → ℕ → Outcome Context
  elf_so_context (reply f) room = felf_so_context f room
  elf_so_context (refuse e) room = fail e

  module _ (rounds : ℕ) (h : Host) (cache : Bytes → Proc → Ran Bytes) where
    -- What __dl_access does with the context of the program: its DT_RUNPATH is not used.
    unfoldable pub on_context : Bytes → ℕ → ℕ → Proc → Outcome Context → Ran Bytes
    on_context path mode bufsiz p (ok c) =
        ldso_access (λ directories q. path_access rounds h path mode directories bufsiz q)
          (cache path) env path bufsiz c.rpath none c.ld_library_path none c.flags_1 c.deflib p
    on_context path mode bufsiz p (fail e) = back none (record p { errno = e })
    on_context path mode bufsiz p overrun = crashed
    on_context path mode bufsiz p out_of_fuel = stuck

    abbrev on_execfn : Bytes → ℕ → ℕ → Proc → Option (Reply File) → Ran Bytes
    on_execfn path mode bufsiz p none = back none p
    on_execfn path mode bufsiz p (some opened) =
        on_context path mode bufsiz p (elf_so_context opened path_max)

    -- __dl_access(path, mode, buf, bufsiz), where `execfn` is the file of __execfn(), if there is one
    unfoldable pub dl_access : Option (Reply File) → Bytes → ℕ → ℕ → Proc → Ran Bytes
    dl_access execfn path mode bufsiz p =
        if has_slash path
        then back none (record p { errno = einval })
        else on_execfn path mode bufsiz p execfn
