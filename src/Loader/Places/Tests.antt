-- ===== src/Loader/Places/Tests.antt =====
-- A program of 32 bits with a DT_RUNPATH, and the theorems about where its libraries are looked for.
use iamroot.Base.{ℕ, ◌≡◌, refl, List, [], ◌∷◌, ◌++◌, Option, none, some, map, take, drop}
use iamroot.Base.Bytes.{Bytes, codes, streq, strncmp_eq}
use iamroot.Base.Bits.{has_bit}
use iamroot.Base.Errno.{reply}
use iamroot.Env.{getenv, valid, has_equals, begins_with_equals, names, find_value}
use iamroot.Identity.{variable, or_zero, to_id, get_id, getuid, geteuid, getgid, getegid}
use iamroot.Identity.Groups.{tokens, strtok}
use iamroot.Elf.{
  little, first, half_at, word_at, byte_at, load, ehdr32, elf_half, elf_swap, host_data, elf_long,
  elf_word, load_phdr, load_shdr, long_at, phdr_size, shdr_size,
}
use iamroot.Elf.Dynamic.{
  iterate_shared_object, on_ehdr, after_entries, dyn_size, each_entry, each_phdr, elf_dyn,
  elf_iterate_ehdr, elf_iterate_ehdr32, elf_shdr, find_strtab, is_string_tag, load_dyns, on_dynamic,
  on_dyns, on_entry, on_phdr, on_result, on_strtab, on_text, swap_dyn, swap_value, value_size,
}
use iamroot.Script.{text_of}
use iamroot.Identity.Numbers.{strtoul}
use iamroot.Loader.Preload.{path_callback}
use iamroot.Elf.Interp.{
  File, at_start, elf_ehdr, all_of, elf_magic, on_class, load_ehdr, elf_phdr, on_reply,
}
use iamroot.Calls.{Proc, Ran, back}
use iamroot.Loader.Paths.{colon, path_strncat, getld_library_path, library_path_of, touched}
use iamroot.Loader.Places.{
  felf_flags_1, felf_rpath, felf_runpath, flags_callback, ld_library_path, ld_lib_path,
  fld_lib_path, ldso_access, add_deflib, cat, add_runpath, add_ld_library_path, add_rpath,
  each_library_path, secure_execution_mode,
}
use iamroot.Loader.Places.Access.{IsFirst, places_of, ldso_access-IsFirst}
use iamroot.Loader.Places.Rooted.{library_names, ld_library_path-rooted}

abbrev word : ℕ → Bytes
word n = n ∷ 0 ∷ 0 ∷ 0 ∷ []

abbrev half : ℕ → Bytes
half n = n ∷ 0 ∷ []

-- The header, PT_INTERP at 182, PT_DYNAMIC at 156, SHT_STRTAB at 172, DT_RUNPATH, DT_FLAGS_1, the
-- strings, and the name of the loader
abbrev image : Bytes
image =
    (127 ∷ 69 ∷ 76 ∷ 70 ∷ 1 ∷ 1 ∷ 1 ∷ 0 ∷ word 0 ++ word 0)
    ++ (half 2 ++ half 3 ++ word 1 ++ word 0 ++ word 52 ++ word 116 ++ word 0)
    ++ (half 52 ++ half 32 ++ half 2 ++ half 40 ++ half 1 ++ half 0)
    ++ (word 3 ++ word 182 ++ word 0 ++ word 0 ++ word 23 ++ word 23 ++ word 0 ++ word 0)
    ++ (word 2 ++ word 156 ++ word 0 ++ word 0 ++ word 16 ++ word 16 ++ word 0 ++ word 0)
    ++ (word 0 ++ word 3 ++ word 0 ++ word 0 ++ word 172 ++ word 10)
    ++ (word 0 ++ word 0 ++ word 0 ++ word 0)
    ++ (word 29 ++ word 1 ++ (251 ∷ 255 ∷ 255 ∷ 111 ∷ word 1))
    ++ (0 ∷ codes "/opt")
    ++ (0 ∷ word 0)
    ++ codes "/lib/ld-musl-i386.so.1"
    ++ (0 ∷ [])

abbrev pub program : File
program = record {
  pread = λ n off. reply (take n (drop off image));
  rewind = reply 0;
  read = λ n. reply (take n image);
}

abbrev pub environment : List Bytes
environment = codes "LD_LIBRARY_PATH=/usr" ∷ []

-- DT_FLAGS_1, DT_RUNPATH and DT_RPATH
pub found :
    (felf_flags_1 little program ≡ some 1)
    × (felf_runpath little program ≡ some (codes "/opt"))
    × (felf_rpath little program ≡ some [])
unfolding felf_flags_1 felf_rpath felf_runpath flags_callback path_callback path_strncat text_of
    iterate_shared_object on_ehdr at_start elf_ehdr all_of streq elf_magic on_class byte_at first
    load_ehdr ehdr32 half_at elf_half elf_swap host_data load after_entries dyn_size each_entry
    each_phdr elf_dyn elf_iterate_ehdr elf_iterate_ehdr32 elf_shdr find_strtab is_string_tag
    load_dyns on_dynamic on_dyns on_entry on_phdr on_result on_strtab on_text swap_dyn swap_value
    value_size elf_phdr on_reply elf_long elf_word load_phdr load_shdr long_at phdr_size shdr_size
    word_at
found = (refl, refl, refl)

search_path : Option Bytes
unfolding ld_library_path ld_lib_path fld_lib_path add_deflib cat path_strncat add_runpath
    add_ld_library_path add_rpath secure_execution_mode getuid geteuid getgid getegid get_id
    variable or_zero to_id strtoul getld_library_path library_path_of getenv valid has_equals
    begins_with_equals names find_value has_bit each_library_path strtok tokens
search_path =
    ld_library_path little (some (codes "/lib")) environment (codes "/r") 64 (reply program)

searched : search_path ≡ some (codes "/r/lib:/r/opt:/r/usr")
unfolding search_path felf_flags_1 felf_rpath felf_runpath flags_callback path_callback path_strncat
    text_of iterate_shared_object on_ehdr at_start elf_ehdr all_of streq elf_magic on_class byte_at
    first load_ehdr ehdr32 half_at elf_half elf_swap host_data load after_entries dyn_size
    each_entry each_phdr elf_dyn elf_iterate_ehdr elf_iterate_ehdr32 elf_shdr find_strtab
    is_string_tag load_dyns on_dynamic on_dyns on_entry on_phdr on_result on_strtab on_text swap_dyn
    swap_value value_size elf_phdr on_reply elf_long elf_word load_phdr load_shdr long_at phdr_size
    shdr_size word_at strncmp_eq touched
searched = refl

ld_library_path-rooted_example :
    tokens colon (codes "/r/lib:/r/opt:/r/usr")
    ≡ map
        (λ path. codes "/r" ++ path)
        (library_names environment 1 (codes "/lib") (codes "/opt") [])
unfolding search_path
ld_library_path-rooted_example =
    ld_library_path-rooted little environment program 1 (codes "/lib") (codes "/opt") [] found.0
      found.1 found.2 (codes "/r") (codes "/r/lib:/r/opt:/r/usr") 64 (refl, (refl, tt)) searched

-- A library that is in the cache alone
access : Option Bytes → Proc → Ran Bytes
access directories p = back none (record p { errno = 2 })

cache : Proc → Ran Bytes
cache p = back (some (codes "/usr/lib/libz.so")) p

abbrev start : Proc
start = record { env = none; errno = 0; log = [] }

ldso_access-IsFirst_example :
    IsFirst
      (places_of access cache environment
        (codes "libz.so")
        none
        none
        (some (codes "/usr"))
        none
        0
        (some (codes "/lib")))
      start
      (ldso_access access cache environment
        (codes "libz.so")
        4096
        none
        none
        (some (codes "/usr"))
        none
        0
        (some (codes "/lib"))
        start)
ldso_access-IsFirst_example =
    ldso_access-IsFirst access cache environment (codes "libz.so") 4096 none none
      (some (codes "/usr")) none 0 (some (codes "/lib")) start refl
