-- ===== src/Loader/Tests.antt =====
-- Programs for ARM and x86, and the theorems about them.
use iamroot.Base.{ℕ, ◌≡◌, ◌<◌, refl, true, [], ◌∷◌, none, some, length}
use iamroot.Base.Bytes.{Bytes, codes, name_max, strneq, strncmp_eq}
use iamroot.Base.Bits.{has_bit}
use iamroot.Base.Errno.{reply}
use iamroot.Elf.{Ehdr}
use iamroot.Env.{setenv, valid, has_equals, put}
use iamroot.Identity.Numbers.{print_unsigned}
use iamroot.Loader.{Target}
use iamroot.Loader.Machine.{
  machine, multiarch, is_x86, is_x86_64, is_arm, is_armhf, is_mipsle, is_powerpc, is_powerpc64,
  is_powerpc64le, is_s390, is_gnu_linux, is_gnu_linux_ext, is_linux_ldso, is_linux,
}
use iamroot.Loader.Variable.{
  to_upper, sanitize_byte, env_sanitize, abi_part, variable_name, sanitized, getvariable, getdeflib,
}
use iamroot.Loader.Variable.Laws.{AllUpper, getvariable-AllUpper, getdeflib-setenv}

abbrev header : ℕ → ℕ → ℕ → Ehdr
header ei_class e_machine e_flags = record {
  ei_class = ei_class;
  ei_data = 1;
  ei_osabi = 0;
  e_type = 3;
  e_machine = e_machine;
  e_version = 1;
  e_entry = 0;
  e_phoff = 52;
  e_shoff = 0;
  e_flags = e_flags;
  e_ehsize = 52;
  e_phentsize = 32;
  e_phnum = 1;
  e_shentsize = 40;
  e_shnum = 0;
  e_shstrndx = 0;
}

-- /lib/ld-linux-armhf.so.3 and /lib/ld-musl-armhf.so.1
abbrev arm_linux : Target
arm_linux = record { ehdr = header 1 40 1024; ldso = codes "linux-armhf"; abi = some 3 }

abbrev arm_musl : Target
arm_musl = record { ehdr = header 1 40 1024; ldso = codes "musl-armhf"; abi = some 1 }

abbrev armhf : Bytes
armhf = codes "armhf"

machine_linux : machine arm_linux ≡ some armhf
unfolding machine is_x86 is_x86_64 is_arm is_armhf has_bit
machine_linux = refl

machine_musl : machine arm_musl ≡ some armhf
unfolding machine is_x86 is_x86_64 is_arm is_armhf has_bit
machine_musl = refl

abbrev variable : Bytes
variable = codes "IAMROOT_DEFLIB_ARMHF_MUSL_ARMHF_1"

names_variable : getvariable arm_musl (codes "IAMROOT_DEFLIB") name_max ≡ reply variable
unfolding getvariable sanitized env_sanitize sanitize_byte to_upper variable_name abi_part
    print_unsigned machine is_x86 is_x86_64 is_arm is_armhf has_bit
names_variable = refl

getvariable-AllUpper_example : (length variable < 255) × AllUpper variable
getvariable-AllUpper_example =
    getvariable-AllUpper arm_musl (codes "IAMROOT_DEFLIB") 255 variable names_variable

no_multiarch : multiarch true arm_musl ≡ none
unfolding multiarch is_gnu_linux_ext is_gnu_linux is_linux_ldso is_linux strneq strncmp_eq is_mipsle
    is_powerpc is_powerpc64 is_powerpc64le is_s390
no_multiarch = refl

abbrev assignment : Bytes
assignment = codes "IAMROOT_DEFLIB_ARMHF_MUSL_ARMHF_1=/opt"

sets : setenv variable (codes "/opt") true [] ≡ reply (assignment ∷ [])
unfolding setenv valid has_equals put
sets = refl

getdeflib-setenv_example : getdeflib true (assignment ∷ []) arm_musl ≡ some (codes "/opt")
getdeflib-setenv_example =
    getdeflib-setenv true arm_musl variable (codes "/opt") [] (assignment ∷ []) no_multiarch
      names_variable sets
