-- ===== src/Loader/Machine.antt =====
-- dso.c: the machine of a program, and the directories of a multiarch system for it.
pub mod Laws
use iamroot.Base.{
  ℕ, ◌/◌, Bool, true, false, not, ◌&&◌, ◌||◌, Option, none, some, ◌==◌, if◌then◌else◌,
}
use iamroot.Base.Bytes.{Bytes, codes, streq, strneq}
use iamroot.Base.Bits.{has_bit}
use iamroot.Path.Text.{is_nil}
use iamroot.Elf.{Ehdr}
use iamroot.Loader.{Target}

-- abi == n
unfoldable pub is_abi : Option ℕ → ℕ → Bool
is_abi none n = false
is_abi (some a) n = a == n

-- abi == -1
unfoldable pub no_abi : Option ℕ → Bool
no_abi none = true
no_abi (some a) = false

-- ELFDATA2LSB and ELFDATA2MSB
unfoldable pub is_lsb : Target → Bool
is_lsb t = t.ehdr.ei_data == 1

unfoldable pub is_msb : Target → Bool
is_msb t = t.ehdr.ei_data == 2

unfoldable pub is_linux_ldso : Bytes → Bool
is_linux_ldso ldso = strneq ldso (codes "linux")

unfoldable pub is_musl_ldso : Bytes → Bool
is_musl_ldso ldso = strneq ldso (codes "musl")

unfoldable pub is_elf_ldso : Bytes → Bool
is_elf_ldso ldso = streq ldso (codes "elf")

unfoldable pub is_32_bits : Target → Bool
is_32_bits t = t.ehdr.ei_class == 1

unfoldable pub is_64_bits : Target → Bool
is_64_bits t = t.ehdr.ei_class == 2

-- EM_386
unfoldable pub is_x86 : Target → Bool
is_x86 t = t.ehdr.e_machine == 3

-- EM_X86_64
unfoldable pub is_x86_64 : Target → Bool
is_x86_64 t = t.ehdr.e_machine == 62

-- EM_ARM and EF_ARM_ABI_FLOAT_SOFT, the bit 9, of a file of 32 bits
unfoldable pub is_arm : Target → Bool
is_arm t = t.ehdr.e_machine == 40 && has_bit 9 t.ehdr.e_flags

-- EM_ARM and EF_ARM_ABI_FLOAT_HARD, the bit 10
unfoldable pub is_armhf : Target → Bool
is_armhf t = t.ehdr.e_machine == 40 && has_bit 10 t.ehdr.e_flags

-- EM_AARCH64
unfoldable pub is_aarch64 : Target → Bool
is_aarch64 t = t.ehdr.e_machine == 183 && is_lsb t

unfoldable pub is_aarch64_be : Target → Bool
is_aarch64_be t = t.ehdr.e_machine == 183 && is_msb t

-- EM_RISCV
unfoldable pub is_riscv : Target → Bool
is_riscv t = t.ehdr.e_machine == 243

-- EM_MIPS
unfoldable pub is_mipsle : Target → Bool
is_mipsle t = t.ehdr.e_machine == 8 && is_lsb t

-- EM_PPC
unfoldable pub is_powerpc : Target → Bool
is_powerpc t = t.ehdr.e_machine == 20 && is_msb t

-- EM_PPC64
unfoldable pub is_powerpc64 : Target → Bool
is_powerpc64 t = t.ehdr.e_machine == 21 && is_msb t

unfoldable pub is_powerpc64le : Target → Bool
is_powerpc64le t = t.ehdr.e_machine == 21 && is_lsb t

-- EM_S390
unfoldable pub is_s390 : Target → Bool
is_s390 t = t.ehdr.e_machine == 22

-- ELFOSABI_GNU
unfoldable pub is_linux : Target → Bool
is_linux t = t.ehdr.ei_osabi == 3

unfoldable pub is_gnu_linux : Target → Bool
is_gnu_linux t = is_linux_ldso t.ldso || is_linux t

unfoldable pub is_gnu_linux_ext : Target → Bool
is_gnu_linux_ext t =
    is_gnu_linux t
    || (is_mipsle t && (is_nil t.ldso && is_abi t.abi 1) && is_32_bits t)
    || (is_mipsle t && (is_nil t.ldso && is_abi t.abi 1) && is_64_bits t)
    || (is_powerpc t && (is_nil t.ldso && is_abi t.abi 1))
    || (is_powerpc64 t && (is_nil t.ldso && is_abi t.abi 2))
    || (is_powerpc64le t && (is_nil t.ldso && is_abi t.abi 2))
    || (is_s390 t && (is_nil t.ldso && is_abi t.abi 1))

unfoldable pub is_musl : Target → Bool
is_musl t = is_musl_ldso t.ldso

-- ELFOSABI_FREEBSD
unfoldable pub is_freebsd : Target → Bool
is_freebsd t = t.ehdr.ei_osabi == 9 || (is_elf_ldso t.ldso && is_abi t.abi 1)

-- ELFOSABI_NETBSD
unfoldable pub is_netbsd : Target → Bool
is_netbsd t = t.ehdr.ei_osabi == 2 || (is_elf_ldso t.ldso && no_abi t.abi)

-- ELFOSABI_OPENBSD
unfoldable pub is_openbsd : Target → Bool
is_openbsd t = t.ehdr.ei_osabi == 12

-- __machine(ehdr, ldso, abi)
unfoldable pub machine : Target → Option Bytes
machine t =
    if is_x86 t
    then (if is_gnu_linux t || is_musl t then some (codes "i686") else some (codes "i386"))
    else if is_x86_64 t
    then some (codes "x86_64")
    else if is_arm t
    then some (codes "arm")
    else if is_armhf t
    then some (codes "armhf")
    else if is_aarch64 t
    then some (codes "aarch64")
    else if is_aarch64_be t
    then some (codes "aarch64_be")
    else if is_riscv t
    then (if is_gnu_linux t || is_musl t then some (codes "riscv64") else some (codes "riscv"))
    else if is_mipsle t && is_32_bits t
    then some (codes "mipsle")
    else if is_mipsle t && is_64_bits t
    then some (codes "mips64le")
    else if is_powerpc t
    then some (codes "powerpc")
    else if is_powerpc64 t
    then some (codes "powerpc64")
    else if is_powerpc64le t
    then some (codes "powerpc64le")
    else if is_s390 t
    then some (codes "s390x")
    else none

-- __multiarch(ehdr, ldso, abi), where `wanted` is __getmultiarch()
unfoldable pub multiarch : Bool → Target → Option Bytes
multiarch wanted t =
    if not (is_gnu_linux_ext t) || not wanted
    then none
    else if is_x86 t
    then some (codes "/lib/i386-linux-gnu:/usr/lib/i386-linux-gnu:/lib:/usr/lib")
    else if is_x86_64 t
    then some (codes "/lib/x86_64-linux-gnu:/usr/lib/x86_64-linux-gnu:/lib:/usr/lib")
    else if is_arm t
    then some (codes "/lib/arm-linux-gnueabi:/usr/lib/arm-linux-gnueabi:/lib:/usr/lib")
    else if is_armhf t
    then some (codes "/lib/arm-linux-gnueabihf:/usr/lib/arm-linux-gnueabihf:/lib:/usr/lib")
    else if is_aarch64 t
    then some (codes "/lib/aarch64-linux-gnu:/usr/lib/aarch64-linux-gnu:/lib:/usr/lib")
    else if is_riscv t && is_64_bits t
    then some (codes "/lib/riscv64-linux-gnu:/usr/lib/riscv64-linux-gnu:/lib:/usr/lib")
    else if is_mipsle t && is_32_bits t
    then some (codes "/usr/lib/mipsel-linux-gnu:/lib/mipsel-linux-gnu:/usr/lib:/lib")
    else if is_mipsle t && is_64_bits t
    then some (codes "/usr/lib/mips64el-linux-gnuabi64:/lib/mips64el-linux-gnuabi64:/usr/lib:/lib")
    else if is_powerpc t
    then some (codes "/usr/lib/powerpc-linux-gnu:/lib/powerpc-linux-gnu:/usr/lib:/lib")
    else if is_powerpc64 t
    then some (codes "/usr/lib/powerpc64le-linux-gnu:/lib/powerpc64-linux-gnu:/usr/lib:/lib")
    else if is_powerpc64le t
    then some (codes "/usr/lib/powerpc64le-linux-gnu:/lib/powerpc64le-linux-gnu:/usr/lib:/lib")
    else if is_s390 t
    then some (codes "/usr/lib/s390x-linux-gnu:/lib/s390x-linux-gnu:/usr/lib:/lib")
    else none
