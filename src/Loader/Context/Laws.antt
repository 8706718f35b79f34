-- ===== src/Loader/Context/Laws.antt =====
-- Where __dl_access looks for a library, and what __felf_so_context leaves out.
use iamroot.Base.{ℕ, ◌≡◌, false, List, Option, none, some}
use iamroot.Base.Bytes.{Bytes, path_max}
use iamroot.Base.Errno.{Reply}
use iamroot.Path.Realpath.{ok}
use iamroot.Elf.{Order}
use iamroot.Elf.Interp.{File}
use iamroot.Calls.{Host, Proc, Ran}
use iamroot.Calls.Search.{path_access}
use iamroot.Loader.Paths.{has_slash}
use iamroot.Loader.Places.Access.{IsFirst, places_of, ldso_access-IsFirst}
use iamroot.Loader.Context.{Context, elf_so_context, on_context, dl_access}

module _ (order : Order) (deflib : File → Option Bytes) (env : List Bytes) (errno : ℕ) (rounds : ℕ)
    (h : Host) (cache : Bytes → Proc → Ran Bytes) where
  -- __dl_access of a name looks in DT_RPATH of the program, if it has no DT_RUNPATH, in
  -- LD_LIBRARY_PATH, in the cache and in the default directories, in this order, and gives what is
  -- found first.
  dl_access-IsFirst :
      (opened : Reply File) (path : Bytes) (mode bufsiz : ℕ) (p : Proc) (c : Context)
      → has_slash path ≡ false
      → elf_so_context order deflib env errno opened path_max ≡ ok c
      → IsFirst
          (places_of
            (λ directories q. path_access rounds h path mode directories bufsiz q)
            (cache path)
            env
            path
            c.rpath
            none
            c.ld_library_path
            none
            c.flags_1
            c.deflib)
          p
          (dl_access order deflib env errno rounds h cache (some opened) path mode bufsiz p)
  unfolding dl_access on_context
  dl_access-IsFirst opened path mode bufsiz p c s found =
      rw (s, found)
        (ldso_access-IsFirst (λ directories q. path_access rounds h path mode directories bufsiz q)
          (cache path) env path bufsiz c.rpath none c.ld_library_path none c.flags_1 c.deflib p s)
