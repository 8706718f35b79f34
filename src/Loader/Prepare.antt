-- ===== src/Loader/Prepare.antt =====
-- dso.c: the first half of __ldso, which finds out the loader of a program, its options, the
-- libraries to preload and the library path, with __felf_interp_ldso_abi, __ld_preload and
-- __inhibit_rpath. What __felf_deflib answers is a parameter.
pub mod Ready
use iamroot.Base.{
  ℕ, ◌+◌, ◌-◌, Bool, true, false, ◌||◌, List, Option, none, some, if◌then◌else◌, length,
}
use iamroot.Base.Bytes.{Bytes, codes, path_max, name_max, strncpy}
use iamroot.Base.Errno.{Reply, reply, refuse, enotsup}
use iamroot.Root.{getrootdir}
use iamroot.Path.Text.{is_nil}
use iamroot.Path.Realpath.{Outcome, ok, fail, overrun, out_of_fuel}
use iamroot.Path.Resolution.{AtFlags, cwd, at_none, path_resolution}
use iamroot.Env.{getenv, unsetenv}
use iamroot.Elf.{Order, Ehdr}
use iamroot.Elf.Interp.{File, felf_header, felf_interp}
use iamroot.Script.{text_of}
use iamroot.Calls.{Host, Proc}
use iamroot.Calls.Search.{path_access}
use iamroot.Loader.{Target}
use iamroot.Loader.Machine.{is_gnu_linux_ext, is_musl, is_freebsd, is_netbsd, is_openbsd}
use iamroot.Loader.Arguments.{◌>>=◌, Options}
use iamroot.Loader.Names.{
  ld_ldso_abi, has_inhibit_cache_option, has_argv0_option, has_preload_option,
}
use iamroot.Loader.Library.{getlibiamroot}
use iamroot.Loader.Preload.{
  Walked, walked, failed, lost, exhausted, on_access, elf_needed, preload_executable,
}
use iamroot.Loader.Places.{ld_lib_path, ld_library_path}

-- AT_SYMLINK_FOLLOW
abbrev at_follow : AtFlags
at_follow = record { symlink_follow = true; symlink_nofollow = false; others = 0 }

-- shift, has_argv0, and so on
pub record Features : Type 0 where
  pub shift : ℕ
  pub has_argv0 : Bool
  pub has_preload : Bool
  pub has_library_path : Bool
  pub has_inhibit_rpath : Bool
  pub has_inhibit_cache : Bool

-- What they are set to first
unfoldable pub none_of : Features
none_of = record {
  shift = 0;
  has_argv0 = false;
  has_preload = false;
  has_library_path = false;
  has_inhibit_rpath = false;
  has_inhibit_cache = false;
}

abbrev pub unless_empty : Bytes → Option Bytes
unless_empty s = if is_nil s then none else some s

-- What a text takes of the buffer
abbrev pub used : Option Bytes → ℕ
used none = 0
used (some s) = length s + 1

abbrev pub or_empty : Option Bytes → Bytes
or_empty none = codes ""
or_empty (some v) = v

abbrev pub on_reply {ℓ κ} : {A : Type ℓ} {B : Type κ} → Reply A → (A → Outcome B) → Outcome B
on_reply (reply a) k = k a
on_reply (refuse e) k = fail e

unfoldable pub gnu_options : Outcome Bool → Outcome Bool → Outcome Bool → Outcome Features
gnu_options cache argv0 preload = cache >>= (λ has_cache. argv0 >>= (λ has_argv0.
    preload >>= (λ has_preload. ok (record {
      shift = 1;
      has_argv0 = has_argv0;
      has_preload = has_preload;
      has_library_path = true;
      has_inhibit_rpath = true;
      has_inhibit_cache = has_cache;
    }))))

unfoldable pub musl_features : Target → Features → Features
musl_features t f =
    if is_musl t
    then record f { shift = 1; has_argv0 = true; has_preload = true; has_library_path = true }
    else f

-- FreeBSD, and then NetBSD and OpenBSD
unfoldable pub bsd_features : Target → Features → Features
bsd_features t f =
    let g = if is_freebsd t then record f { shift = 1 } else f in
    if is_netbsd t || is_openbsd t then record g { shift = 0 } else g

-- A walk without a result is a path resolution without one.
abbrev pub on_walked :
    Walked → (Bytes → Proc → Outcome (Options × List Bytes)) → Outcome (Options × List Bytes)
on_walked (walked buf p) k = k buf p
on_walked (failed p) k = fail p.errno
on_walked lost k = out_of_fuel
on_walked exhausted k = out_of_fuel

-- __inhibit_rpath(buf, bufsiz, off), if there is the option
unfoldable pub inhibit_rpath : Features → List Bytes → ℕ → Option Bytes
inhibit_rpath f env room =
    if f.has_inhibit_rpath
    then unless_empty (strncpy (or_empty (getenv (codes "IAMROOT_INHIBIT_RPATH") env)) room)
    else none

-- What the second half is given
unfoldable pub options_with :
    Features → Bytes → Option Bytes → Option Bytes → Option Bytes → Options
options_with f interp preload library_path inhibit = record {
  shift = f.shift;
  has_argv0 = f.has_argv0;
  has_preload = f.has_preload;
  has_library_path = f.has_library_path;
  has_inhibit_rpath = f.has_inhibit_rpath;
  has_inhibit_cache = f.has_inhibit_cache;
  interp = interp;
  ld_preload = preload;
  ld_library_path = library_path;
  inhibit_rpath = inhibit;
}

-- What the host answers: the file of a path name, what %i reads, PREFIX of the
-- build, what __felf_deflib writes, the expression of the names of libraries, and the errno
-- with which a list is not made
pub record Answers : Type 0 where
  pub opened : Bytes → Reply File
  pub scan_int : Bytes → Option (ℕ × Bytes)
  pub prefix : Bytes
  pub deflib : File → Option Bytes
  pub is_lib : Bytes → Bool
  pub list_errno : ℕ

module _ (order : Order) (rounds : ℕ) (h : Host) (a : Answers) where
  -- What follows __felf_interp, where an empty name is -1 with the errno of before
  abbrev named : Proc → Ehdr → Bytes → Option (Bytes × Option ℕ) → Outcome (Target × Bytes)
  named p ehdr interp none = fail enotsup
  named p ehdr interp (some (ldso, abi)) =
      ok (record { ehdr = ehdr; ldso = ldso; abi = abi }, interp)

  abbrev on_interp : Proc → Ehdr → Bytes → Outcome (Target × Bytes)
  on_interp p ehdr interp =
      if is_nil interp then fail p.errno else named p ehdr interp (ld_ldso_abi a.scan_int interp)

  -- __felf_interp_ldso_abi(fd, ehdr, interp, interpsiz, ldso, abi)
  unfoldable pub felf_interp_ldso_abi : Proc → File → Outcome (Target × Bytes)
  felf_interp_ldso_abi p f =
      on_reply (felf_header order f)
        λ ehdr. on_reply (felf_interp order f name_max) λ bs. on_interp p ehdr (text_of bs)

  -- __elf_interp_ldso_abi(path, ...)
  unfoldable pub elf_interp_ldso_abi : Bytes → Proc → Outcome (Target × Bytes)
  elf_interp_ldso_abi path p = on_reply (a.opened path) λ f. felf_interp_ldso_abi p f

  -- The GNU systems, where pt_interp is resolved each time
  unfoldable pub gnu_features : Target → Bytes → Proc → Outcome Features
  gnu_features t pt_interp p =
      let resolved =
        path_resolution rounds (h.fs p.log) p.env p.errno cwd (some pt_interp) path_max at_follow in
      if is_gnu_linux_ext t
      then gnu_options (has_inhibit_cache_option a.scan_int resolved)
          (has_argv0_option a.scan_int resolved) (has_preload_option a.scan_int resolved)
      else ok none_of

  unfoldable pub features : Target → Bytes → Proc → Outcome Features
  features t pt_interp p =
      gnu_features t pt_interp p >>= (λ f. ok (bsd_features t (musl_features t f)))

  abbrev deflib_of : Reply File → Option Bytes
  deflib_of (reply f) = a.deflib f
  deflib_of (refuse e) = none

  abbrev on_lib_path : Proc → Option Bytes → (Bytes → Walked) → Walked
  on_lib_path p none k = failed (record p { errno = a.list_errno })
  on_lib_path p (some lib_path) k = k lib_path

  -- __ld_preload(ehdr, ldso, abi, path, buf, bufsiz, offset), where room is bufsiz-offset
  unfoldable pub ld_preload : Target → Bytes → List Bytes → ℕ → Proc → Walked
  ld_preload t path env room p = on_access (getlibiamroot a.prefix h t env room p) λ lib q.
      on_lib_path q (ld_lib_path order (deflib_of (a.opened path)) env path_max (a.opened path))
        λ lib_path.
          preload_executable (elf_needed order a.opened)
            (λ needed r. path_access rounds h needed 0 (some lib_path) path_max r) a.is_lib room
            room path lib q

  abbrev pub on_list :
      Option Bytes → (Bytes → Outcome (Options × List Bytes)) → Outcome (Options × List Bytes)
  on_list none k = fail a.list_errno
  on_list (some s) k = k s

  -- What follows the lists: the environment is cleared and the name of the loader resolved.
  unfoldable pub clear :
      Features
      → Option Bytes
      → Option Bytes
      → Option Bytes
      → Bytes
      → List Bytes
      → ℕ
      → Proc
      → Outcome (Options × List Bytes)
  clear f preload library_path inhibit pt_interp env room p =
      on_reply (unsetenv (codes "LD_PRELOAD") env) λ env1.
        on_reply (unsetenv (codes "LD_LIBRARY_PATH") env1) λ env2.
          path_resolution rounds (h.fs p.log) p.env p.errno cwd (some pt_interp) room at_none
          >>= (λ interp. ok (options_with f interp preload library_path inhibit, env2))

  -- The lists in the buffer, one behind the other
  unfoldable pub make_lists :
      Target → Bytes → Features → Bytes → List Bytes → ℕ → Proc → Outcome (Options × List Bytes)
  make_lists t pt_interp f path env room p = on_walked (ld_preload t path env room p) λ buf q.
      let preload = unless_empty buf in
      let left = room - used preload in
      on_list
        (ld_library_path order (deflib_of (a.opened path)) env (getrootdir p.env) left
          (a.opened path))
        λ list.
          let library_path = unless_empty list in
          let rest = left - used library_path in
          let inhibit = inhibit_rpath f env rest in
          clear f preload library_path inhibit pt_interp env (rest - used inhibit) q

  -- The first half of __ldso(path, argv, interparg, buf, bufsiz, offset), where room is bufsiz-offset
  unfoldable pub prepare : ℕ → Proc → Bytes → List Bytes → Outcome (Options × List Bytes)
  prepare room p path env = elf_interp_ldso_abi path p >>= (λ (t, pt_interp).
      features t pt_interp p >>= (λ f. make_lists t pt_interp f path env room p))
