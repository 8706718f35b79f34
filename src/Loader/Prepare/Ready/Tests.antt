-- ===== src/Loader/Prepare/Ready/Tests.antt =====
-- A program that names the loader of musl, in the chroot /srv/r, and the theorem about it.
use iamroot.Base.{List, ◌∷◌, ℕ, ◌≡◌, refl, true, false, [], none, some}
use iamroot.Base.Bytes.{Bytes, codes, streq, strleq, strneq, strncmp_eq, path_max}
use iamroot.Base.Errno.{reply, refuse}
use iamroot.Path.Realpath.{ok, fuel, realpathat}
use iamroot.Path.Realpath.Tests.{sample}
use iamroot.Path.Resolution.{
  cwd, path_resolution2, add_prefix, on_prefixed, follow_links, try_realpath, keep_below,
  root_prefix, strip_prefix, strip_ignored, print_path,
}
use iamroot.Elf.{
  Ehdr, little, first, half_at, word_at, byte_at, load, ehdr32, elf_half, elf_swap, host_data,
  elf_long, elf_word, load_phdr, load_shdr, long_at, phdr_size, shdr_size,
}
use iamroot.Elf.Dynamic.{
  iterate_shared_object, on_ehdr, after_entries, dyn_size, each_entry, each_phdr, elf_dyn,
  elf_iterate_ehdr, elf_iterate_ehdr32, elf_shdr, find_strtab, is_string_tag, load_dyns, on_dynamic,
  on_dyns, on_entry, on_phdr, on_result, on_strtab, on_text, swap_dyn, swap_value, value_size,
}
use iamroot.Elf.Interp
use iamroot.Script.{text_of}
use iamroot.Root.{getrootdir}
use iamroot.Base.Bits.{has_bit}
use iamroot.Path.Sanitize.{path_sanitize}
use iamroot.Env.{getenv, valid, has_equals, begins_with_equals, names, find_value, unsetenv, remove}
use iamroot.Identity.{variable, or_zero, to_id, get_id, getuid, geteuid, getgid, getegid}
use iamroot.Identity.Numbers.{strtoul}
use iamroot.Identity.Groups.{tokens, strtok}
use iamroot.Loader.Paths.{basename, path_strncat, getld_library_path, library_path_of, touched}
use iamroot.Loader.Names.{
  ld_ldso_abi, name_ldso_abi, number_behind, behind_text, scan_netbsd, scan_linux, scan_until,
}
use iamroot.Loader.Machine.{
  is_musl, is_gnu_linux_ext, is_gnu_linux, is_linux, is_linux_ldso, is_mipsle, is_powerpc,
  is_powerpc64, is_powerpc64le, is_s390, is_musl_ldso, is_lsb, is_msb, is_freebsd, is_elf_ldso,
  is_abi, is_netbsd, is_openbsd, no_abi,
}
use iamroot.Loader.Places.{
  ld_library_path, ld_lib_path, fld_lib_path, add_deflib, cat, add_runpath, add_ld_library_path,
  add_rpath, each_library_path, secure_execution_mode,
}
use iamroot.Elf.Interp.{
  File, felf_header, felf_interp, at_start, elf_ehdr, all_of, elf_magic, on_class, load_ehdr,
  elf_phdr, interp_of, elf_interp32, find_interp, read_interp,
}
use iamroot.Calls.{Host, Proc, back, next_faccessat}
use iamroot.Loader.Library.{getlibiamroot}
use iamroot.Loader.Variable.{
  getvariable, sanitized, variable_name, abi_part, env_sanitize, or_else, sanitize_byte, to_lower,
  to_upper,
}
use iamroot.Loader.Machine.{machine, is_x86}
use iamroot.Identity.Numbers.{print_unsigned}
use iamroot.Calls.Search.{
  answered, ask_host, candidate, copy_found, directories, extend, goes_on, host_path_access, search,
  search_path,
}
use iamroot.Calls.{call, settle}
use iamroot.Loader.Library.{
  in_installed, in_origin_or_installed, libiamroot_access, library_file, or_further, or_host,
}
use iamroot.Loader.{Target}
use iamroot.Loader.Arguments.{Options}
use iamroot.Loader.Places.Tests.{program, found}
use iamroot.Loader.Names.Tests.{digit}
use iamroot.Loader.Preload.{felf_needed, elf_needed, preload_executable, each_needed}
use iamroot.Loader.Prepare.{
  Answers, Features, none_of, options_with, elf_interp_ldso_abi, felf_interp_ldso_abi, gnu_features,
  musl_features, bsd_features, features, ld_preload, make_lists, clear, inhibit_rpath, prepare,
}
use iamroot.Loader.Prepare.Ready.{Holds, IsReady, prepare-IsReady}

unfoldable pub host : Host
unfolding sample
host = record {
  fs = λ log. sample;
  answer = λ log c. reply 0;
  lstat = λ log path. refuse 2;
  fstatat = λ log dfd path atflags. refuse 2;
  attribute = λ log path a. none;
  listing = λ log c. refuse 2;
  is_directory = λ log path. false;
  fis_directory = λ log dfd. false;
}

abbrev pub before : Proc
before = record { env = some (codes "/srv/r"); errno = 0; log = [] }

-- The environment, by which the chroot is the one of the process
abbrev pub variables : List Bytes
variables = codes "IAMROOT_ROOT=/srv/r" ∷ []

abbrev pub answers : Answers
answers = record {
  opened = λ path. reply program;
  scan_int = digit;
  prefix = codes "/h";
  deflib = λ f. some (codes "/lib");
  is_lib = λ name. false;
  list_errno = 2;
}

abbrev pub pt_interp : Bytes
pt_interp = codes "/lib/ld-musl-i386.so.1"

abbrev header : Ehdr
header = record {
  ei_class = 1;
  ei_data = 1;
  ei_osabi = 0;
  e_type = 2;
  e_machine = 3;
  e_version = 1;
  e_entry = 0;
  e_phoff = 52;
  e_shoff = 116;
  e_flags = 0;
  e_ehsize = 52;
  e_phentsize = 32;
  e_phnum = 2;
  e_shentsize = 32;
  e_shnum = 1;
  e_shstrndx = 0;
}

abbrev pub target : Target
target = record { ehdr = header; ldso = codes "musl-i386"; abi = some 1 }

pub named :
    (path : Bytes)
    → elf_interp_ldso_abi little fuel host answers path before ≡ ok (target, pt_interp)
unfolding elf_interp_ldso_abi felf_interp_ldso_abi felf_header felf_interp at_start elf_ehdr all_of
    streq elf_magic on_class byte_at first load_ehdr ehdr32 half_at elf_half elf_swap host_data load
    elf_phdr elf_long elf_word load_phdr long_at phdr_size word_at Interp.on_reply interp_of
    elf_interp32 find_interp read_interp text_of ld_ldso_abi name_ldso_abi number_behind behind_text
    scan_netbsd scan_linux scan_until digit basename strneq strncmp_eq
named path = refl

-- It needs no libraries.
needed : felf_needed little program ≡ some []
unfolding felf_needed at_start elf_ehdr all_of streq elf_magic on_class byte_at first load_ehdr
    ehdr32 half_at elf_half elf_swap host_data load elf_phdr elf_long elf_word load_phdr long_at
    phdr_size word_at iterate_shared_object on_ehdr after_entries dyn_size each_entry each_phdr
    elf_dyn elf_iterate_ehdr elf_iterate_ehdr32 elf_shdr find_strtab is_string_tag load_dyns
    on_dynamic on_dyns on_entry on_phdr on_result on_strtab on_text swap_dyn swap_value value_size
    load_shdr shdr_size Interp.on_reply
needed = refl

lib_path :
    ld_lib_path little (some (codes "/lib")) variables path_max (reply program)
    ≡ some (codes "/lib:/opt")
unfolding ld_lib_path fld_lib_path add_deflib cat path_strncat add_runpath add_ld_library_path
    add_rpath secure_execution_mode getuid geteuid getgid getegid get_id variable or_zero to_id
    strtoul getld_library_path library_path_of getenv valid has_equals begins_with_equals names
    find_value has_bit strncmp_eq touched
lib_path = rw (found.0, found.1) refl

abbrev pub musl_features_of : Features
musl_features_of = record {
  shift = 1;
  has_argv0 = true;
  has_preload = true;
  has_library_path = true;
  has_inhibit_rpath = false;
  has_inhibit_cache = false;
}

featured : features little fuel host answers target pt_interp before ≡ ok musl_features_of
unfolding features gnu_features musl_features bsd_features is_musl is_gnu_linux_ext is_gnu_linux
    is_linux is_linux_ldso is_mipsle is_powerpc is_powerpc64 is_powerpc64le is_s390 is_musl_ldso
    is_lsb is_msb is_freebsd is_elf_ldso is_abi is_netbsd is_openbsd no_abi none_of strneq streq
featured = refl

-- The loader of musl, in the chroot
abbrev pub musl : Options
musl = record {
  shift = 1;
  has_argv0 = true;
  has_preload = true;
  has_library_path = true;
  has_inhibit_rpath = false;
  has_inhibit_cache = false;
  interp = codes "/srv/r/lib/ld-musl-i386.so.1";
  ld_preload = some (codes "/h/lib/iamroot/i686/libiamroot-musl-i386.so.1");
  ld_library_path = some (codes "/srv/r/lib:/srv/r/opt");
  inhibit_rpath = none;
}

abbrev library : Bytes
library = codes "/h/lib/iamroot/i686/libiamroot-musl-i386.so.1"

-- The library is asked for once.
abbrev after : Proc
after = record before { log = next_faccessat cwd library 0 0 ∷ [] }

library_found :
    getlibiamroot (codes "/h") host target variables 8174 before ≡ back (some library) after
unfolding getlibiamroot getvariable sanitized variable_name machine is_x86 is_gnu_linux
    is_linux_ldso strneq is_linux is_musl is_musl_ldso abi_part print_unsigned getenv valid
    env_sanitize has_equals has_bit streq strncmp_eq answered ask_host candidate copy_found
    directories extend goes_on host_path_access search search_path call settle begins_with_equals
    find_value names in_installed in_origin_or_installed libiamroot_access library_file or_further
    or_host no_abi is_abi or_else sanitize_byte to_lower to_upper host sample
library_found = refl

library_found_behind_words :
    getlibiamroot (codes "/h") host target variables 8150 before ≡ back (some library) after
unfolding getlibiamroot getvariable sanitized variable_name machine is_x86 is_gnu_linux
    is_linux_ldso strneq is_linux is_musl is_musl_ldso abi_part print_unsigned getenv valid
    env_sanitize has_equals has_bit streq strncmp_eq answered ask_host candidate copy_found
    directories extend goes_on host_path_access search search_path call settle begins_with_equals
    find_value names in_installed in_origin_or_installed libiamroot_access library_file or_further
    or_host no_abi is_abi or_else sanitize_byte to_lower to_upper host sample
library_found_behind_words = refl

abbrev Gives : ℕ → Bytes → Type 0
Gives room path = prepare little fuel host answers room before path variables ≡ ok (musl, variables)

pub ready : (path : Bytes) → Gives 8174 path
unfolding prepare make_lists ld_preload preload_executable each_needed elf_needed strtok tokens
    ld_library_path each_library_path cat path_strncat clear unsetenv remove options_with
    inhibit_rpath valid has_equals names begins_with_equals strncmp_eq path_resolution2 sample host
    fuel streq strleq strneq add_prefix print_path root_prefix getrootdir strip_prefix on_prefixed
    follow_links try_realpath realpathat path_sanitize strip_ignored keep_below
ready path = rw (named path, featured, library_found, lib_path, needed) refl

-- With less room, behind the words of a script
pub ready_behind_words : (path : Bytes) → Gives 8150 path
unfolding prepare make_lists ld_preload preload_executable each_needed elf_needed strtok tokens
    ld_library_path each_library_path cat path_strncat clear unsetenv remove options_with
    inhibit_rpath valid has_equals names begins_with_equals strncmp_eq path_resolution2 sample host
    fuel streq strleq strneq add_prefix print_path root_prefix getrootdir strip_prefix on_prefixed
    follow_links try_realpath realpathat path_sanitize strip_ignored keep_below
ready_behind_words path =
    rw (named path, featured, library_found_behind_words, lib_path, needed) refl

prepare-IsReady_example :
    Holds IsReady (prepare little fuel host answers 8174 before (codes "/p") variables)
unfolding is_netbsd is_openbsd is_elf_ldso streq
prepare-IsReady_example =
    prepare-IsReady little fuel host answers 8174 before (codes "/p") variables target pt_interp
      (named (codes "/p")) refl
