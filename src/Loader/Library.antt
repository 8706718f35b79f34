-- ===== src/Loader/Library.antt =====
-- dso.c: the library of iamroot that a program is to preload, by __libiamroot_access and
-- __getlibiamroot. PREFIX is a parameter.
use iamroot.Base.{
  ℕ, ◌-◌, not, ◌&&◌, ◌||◌, List, [], ◌∷◌, ◌++◌, Option, none, some, ltb, if◌then◌else◌, length,
}
use iamroot.Base.Bytes.{Bytes, codes, streq, path_max, strncpy}
use iamroot.Base.Errno.{Reply, reply, refuse, enospc}
use iamroot.Path.Text.{is_nil}
use iamroot.Path.Resolution.{cwd}
use iamroot.Env.{getenv}
use iamroot.Identity.Numbers.{print_unsigned}
use iamroot.Calls.{Host, Proc, Ran, back, crashed, stuck, next_faccessat, call}
use iamroot.Calls.Search.{host_path_access}
use iamroot.Loader.{Target}
use iamroot.Loader.Machine.{
  is_abi, is_32_bits, is_64_bits, is_x86, is_x86_64, is_arm, is_armhf, is_aarch64, is_aarch64_be,
  is_riscv, is_mipsle, is_powerpc, is_powerpc64, is_powerpc64le, is_s390, is_gnu_linux, is_musl,
  is_freebsd, is_netbsd, machine,
}
use iamroot.Loader.Variable.{getvariable, or_else}

-- The systems with the C library of GNU
unfoldable pub gnu_linux_library : Target → Option Bytes
gnu_linux_library t =
    if not (is_gnu_linux t)
    then none
    else if is_x86 t || (streq t.ldso (codes "linux") && is_abi t.abi 2)
    then some (codes "/lib/iamroot/i686/libiamroot-linux.so.2")
    else if is_x86_64 t || (streq t.ldso (codes "linux-x86-64") && is_abi t.abi 2)
    then some (codes "/lib/iamroot/x86_64/libiamroot-linux-x86-64.so.2")
    else if is_arm t || (streq t.ldso (codes "linux") && is_abi t.abi 3)
    then some (codes "/lib/iamroot/arm/libiamroot-linux.so.3")
    else if is_armhf t || (streq t.ldso (codes "linux-armhf") && is_abi t.abi 3)
    then some (codes "/lib/iamroot/armhf/libiamroot-linux-armhf.so.3")
    else if is_aarch64 t || (streq t.ldso (codes "linux-aarch64") && is_abi t.abi 1)
    then some (codes "/lib/iamroot/aarch64/libiamroot-linux-aarch64.so.1")
    else if is_aarch64_be t || (streq t.ldso (codes "linux-aarch64_be") && is_abi t.abi 1)
    then some (codes "/lib/iamroot/aarch64_be/libiamroot-linux-aarch64_be.so.1")
    else if (is_riscv t && is_64_bits t)
        || (streq t.ldso (codes "linux-riscv64-lp64d") && is_abi t.abi 1)
    then some (codes "/lib/iamroot/riscv64/libiamroot-linux-riscv64-lp64d.so.1")
    else none

-- MIPS
unfoldable pub mips_library : Target → Option Bytes
mips_library t =
    if not (is_mipsle t && (is_nil t.ldso && is_abi t.abi 1))
    then none
    else if is_32_bits t
    then some (codes "/lib/iamroot/mipsle/libiamroot.so.1")
    else if is_64_bits t
    then some (codes "/lib/iamroot/mips64le/libiamroot.so.1")
    else none

-- The machines with a loader ld.so.<abi>
unfoldable pub former_library : Target → Option Bytes
former_library t =
    if is_powerpc t && (is_nil t.ldso && is_abi t.abi 1)
    then some (codes "/lib/iamroot/powerpc/libiamroot.so.1")
    else if is_powerpc64 t && (is_nil t.ldso && is_abi t.abi 2)
    then some (codes "/lib/iamroot/powerpc64/libiamroot.so.2")
    else if is_powerpc64le t && (is_nil t.ldso && is_abi t.abi 2)
    then some (codes "/lib/iamroot/powerpc64le/libiamroot.so.2")
    else if is_s390 t && (is_nil t.ldso && is_abi t.abi 1)
    then some (codes "/lib/iamroot/s390x/libiamroot.so.1")
    else none

-- The systems with musl
unfoldable pub musl_library : Target → Option Bytes
musl_library t =
    if is_x86 t || (streq t.ldso (codes "musl-i386") && is_abi t.abi 1)
    then some (codes "/lib/iamroot/i686/libiamroot-musl-i386.so.1")
    else if is_x86_64 t || (streq t.ldso (codes "musl-x86_64") && is_abi t.abi 1)
    then some (codes "/lib/iamroot/x86_64/libiamroot-musl-x86_64.so.1")
    else if is_arm t || (streq t.ldso (codes "musl-arm") && is_abi t.abi 1)
    then some (codes "/lib/iamroot/arm/libiamroot-musl-arm.so.1")
    else if is_armhf t || (streq t.ldso (codes "musl-armhf") && is_abi t.abi 1)
    then some (codes "/lib/iamroot/armhf/libiamroot-musl-armhf.so.1")
    else if is_aarch64 t || (streq t.ldso (codes "musl-aarch64") && is_abi t.abi 1)
    then some (codes "/lib/iamroot/aarch64/libiamroot-musl-aarch64.so.1")
    else if is_aarch64 t || (streq t.ldso (codes "musl-aarch64_be") && is_abi t.abi 1)
    then some (codes "/lib/iamroot/aarch64_be/libiamroot-musl-aarch64_be.so.1")
    else if (is_riscv t && is_64_bits t) || (streq t.ldso (codes "musl-riscv64") && is_abi t.abi 1)
    then some (codes "/lib/iamroot/riscv64/libiamroot-musl-riscv64.so.1")
    else none

-- MIPS, PowerPC and S/390 with musl
unfoldable pub other_musl_library : Target → Option Bytes
other_musl_library t =
    if is_mipsle t && is_32_bits t && (streq t.ldso (codes "musl-mipsel") && is_abi t.abi 1)
    then some (codes "/lib/iamroot/mipsle/libiamroot-musl-mipsel.so.1")
    else if is_mipsle t && is_64_bits t && (streq t.ldso (codes "musl-mips64el") && is_abi t.abi 1)
    then some (codes "/lib/iamroot/mips64le/libiamroot-musl-mips64el.so.1")
    else if is_powerpc t && (streq t.ldso (codes "musl-powerpc") && is_abi t.abi 1)
    then some (codes "/lib/iamroot/powerpc/libiamroot-musl-powerpc.so.1")
    else if is_powerpc64 t && (streq t.ldso (codes "musl-powerpc64") && is_abi t.abi 1)
    then some (codes "/lib/iamroot/powerpc64/libiamroot-musl-powerpc64.so.1")
    else if is_powerpc64le t && (streq t.ldso (codes "musl-powerpc64le") && is_abi t.abi 1)
    then some (codes "/lib/iamroot/powerpc64le/libiamroot-musl-powerpc64le.so.1")
    else if is_s390 t && (streq t.ldso (codes "musl-s390x") && is_abi t.abi 1)
    then some (codes "/lib/iamroot/s390x/libiamroot-musl-s390x.so.1")
    else none

-- FreeBSD
unfoldable pub freebsd_library : Target → Option Bytes
freebsd_library t =
    if not (is_freebsd t)
    then none
    else if is_x86_64 t
    then some (codes "/lib/iamroot/amd64/libiamroot-elf.so.1")
    else if is_aarch64 t
    then some (codes "/lib/iamroot/arm64/libiamroot-elf.so.1")
    else none

-- NetBSD
unfoldable pub netbsd_library : Target → Option Bytes
netbsd_library t =
    if not (is_netbsd t)
    then none
    else if is_x86_64 t
    then some (codes "/lib/iamroot/amd64/libiamroot.elf_so")
    else if is_aarch64 t
    then some (codes "/lib/iamroot/arm64/libiamroot.elf_so")
    else none

-- The path name by architecture and system, below PREFIX
unfoldable pub known_library : Target → Option Bytes
known_library t = or_else (gnu_linux_library t) (
    or_else (mips_library t) (
      or_else (former_library t) (
        or_else (if is_musl t then or_else (musl_library t) (other_musl_library t) else none)
          (or_else (freebsd_library t) (netbsd_library t)))))

unfoldable pub or_default : Option Bytes → Bytes
or_default none = codes "/lib/iamroot/libiamroot.so"
or_default (some lib) = lib

-- The name of the library below the directory of the machine
unfoldable pub library_file : Bytes → Bytes → Option ℕ → Bytes
library_file m [] none = m ++ codes "/libiamroot.so"
library_file m [] (some abi) = m ++ codes "/libiamroot.so." ++ print_unsigned abi
library_file m (c ∷ ldso) none = m ++ codes "/libiamroot.elf_so"
library_file m (c ∷ ldso) (some abi) =
    m ++ codes "/libiamroot-" ++ (c ∷ ldso) ++ codes ".so." ++ print_unsigned abi

-- X_OK and AT_EACCESS
abbrev x_ok : ℕ
x_ok = 1

abbrev at_eaccess : ℕ
at_eaccess = 512

module _ (prefix : Bytes) (h : Host) (t : Target) where
  -- What follows the label host
  unfoldable pub host_library : Bytes → ℕ → Proc → Ran Bytes
  host_library path room p = host_path_access h (codes "libiamroot.so") 0 (some path) room p

  -- if (siz != -1) return siz;
  unfoldable pub or_host : Bytes → ℕ → Ran Bytes → Ran Bytes
  or_host path room (back (some buf) p) = back (some buf) p
  or_host path room (back none p) = host_library path room p
  or_host path room crashed = crashed
  or_host path room stuck = stuck

  abbrev on_machine : Bytes → ℕ → Proc → Option Bytes → Ran Bytes
  on_machine path room p none = host_library path room p
  on_machine path room p (some m) =
      let file = library_file m t.ldso t.abi in
      if ltb (length file) (path_max - 1)
      then or_host path room (host_path_access h file 0 (some path) room p)
      else back none (record p { errno = enospc })

  -- __libiamroot_access(ehdr, ldso, abi, F_OK, path, buf, bufsiz, offset), where room is bufsiz-offset
  unfoldable pub libiamroot_access : Bytes → ℕ → Proc → Ran Bytes
  libiamroot_access path room p = on_machine path room p (machine t)

  -- if (siz > 0) lib = &buf[offset]; if (lib && *lib) goto exit;
  unfoldable pub or_further : Ran Bytes → (Proc → Ran Bytes) → Ran Bytes
  or_further (back (some buf) p) next = if is_nil buf then next p else back (some buf) p
  or_further (back none p) next = next p
  or_further crashed next = crashed
  or_further stuck next = stuck

  module _ (env : List Bytes) (room : ℕ) where
    -- What follows the label exit, with the errno of before in save
    abbrev exit : ℕ → Bytes → Proc → Ran Bytes
    exit save lib p = back (some (strncpy lib room)) (record p { errno = save })

    abbrev on_lib : ℕ → Option Bytes → Proc → Ran Bytes
    on_lib save none p = exit save (prefix ++ codes "/lib/iamroot/libiamroot.so") p
    on_lib save (some lib) p = exit save lib p

    -- What follows next_faccessat
    unfoldable pub on_faccessat : ℕ → Bytes → Ran ℕ → Ran Bytes
    on_faccessat save lib (back (some n) p) = exit save lib p
    on_faccessat save lib (back none p) = on_lib save (getenv (codes "IAMROOT_LIB") env) p
    on_faccessat save lib crashed = crashed
    on_faccessat save lib stuck = stuck

    -- What follows the search in the two directories
    unfoldable pub hard_coded : ℕ → Proc → Ran Bytes
    hard_coded save p =
        let lib = prefix ++ or_default (known_library t) in
        on_faccessat save lib (call h p (next_faccessat cwd lib x_ok at_eaccess))

    abbrev restored : ℕ → Ran Bytes → Ran Bytes
    restored save (back r p) = back r (record p { errno = save })
    restored save crashed = crashed
    restored save stuck = stuck

    unfoldable pub in_installed : ℕ → Proc → Ran Bytes
    in_installed save p =
        or_further (libiamroot_access (prefix ++ codes "/lib/iamroot") room p)
          λ q. hard_coded save q

    unfoldable pub in_origin_or_installed : ℕ → Option Bytes → Proc → Ran Bytes
    in_origin_or_installed save none p = in_installed save p
    in_origin_or_installed save (some origin) p =
        or_further (libiamroot_access origin room p) λ q. in_installed save q

    abbrev on_value : Proc → Option Bytes → Ran Bytes
    on_value p (some lib) = exit p.errno lib p
    on_value p none =
        restored p.errno (in_origin_or_installed p.errno (getenv (codes "IAMROOT_ORIGIN") env) p)

    abbrev on_variable : Proc → Reply Bytes → Ran Bytes
    on_variable p (refuse e) = back none (record p { errno = e })
    on_variable p (reply var) = on_value p (getenv var env)

    -- __getlibiamroot(ehdr, ldso, abi, buf, bufsiz, offset)
    unfoldable pub getlibiamroot : Proc → Ran Bytes
    getlibiamroot p = on_variable p (getvariable t (codes "IAMROOT_LIB") path_max)
