-- ===== src/Elf/Dynamic/Tests.antt =====
-- A big-endian file of 32 bits, read on a little-endian host.
use iamroot.Base.{◌≡◌, refl, [], ◌∷◌, List, arith}
use iamroot.Base.Bytes.{Bytes}
use iamroot.Base.Errno.{reply}
use iamroot.Elf.{little, big, class32, elf_swap, elf_word, host_data, bswap_32, load}
use iamroot.Elf.Interp.{File}
use iamroot.Elf.Dynamic.{
  Dyn, Value, integer, Callback, proceed, swap_value, swap_dyn, load_dyns, value_size, dyn_size,
  each_entry, on_entry, on_result, is_string_tag,
}
use iamroot.Elf.Dynamic.Foreign.{each_entry-swap_dyn}

abbrev nothing : File
nothing = record { pread = λ n off. reply []; rewind = reply 0; read = λ n. reply [] }

-- DT_SYMTAB with 7, and DT_STRSZ with 9
abbrev entries : Bytes
entries = 0 ∷ 0 ∷ 0 ∷ 6 ∷ 0 ∷ 0 ∷ 0 ∷ 7 ∷ 0 ∷ 0 ∷ 0 ∷ 10 ∷ 0 ∷ 0 ∷ 0 ∷ 9 ∷ []

abbrev dyns : List Dyn
dyns = load_dyns little class32 2 entries

-- The callback collects what it is given.
abbrev collect : Callback (List Value)
collect v s = (0, v ∷ s)

abbrev host_dyns : List Dyn
host_dyns = load_dyns big class32 2 entries

-- On a big-endian host DT_STRSZ is found, and on a little-endian one it is not.
collected :
    (each_entry collect nothing (0, 0) 10 (swap_dyn big class32 2 host_dyns) 5 []
      ≡ proceed 0 (integer 9 ∷ []))
    × (each_entry collect nothing (0, 0) 10 (swap_dyn little class32 2 dyns) 5 [] ≡ proceed 5 [])
unfolding each_entry on_entry on_result is_string_tag swap_dyn swap_value elf_word elf_swap
    host_data bswap_32 load_dyns value_size dyn_size load
collected = (refl, refl)

abbrev first_entry : Dyn
first_entry = record { d_tag = 100663296; d_val = 117440512 }

abbrev second_entry : Dyn
second_entry = record { d_tag = 167772160; d_val = 150994944 }

each_entry-swap_dyn_example :
    each_entry collect nothing
      (0, 0)
      10
      (swap_dyn little class32 2 (first_entry ∷ second_entry ∷ []))
      5
      []
    ≡ each_entry collect nothing (0, 0) 10 (swap_dyn little class32 2 (first_entry ∷ [])) 5 []
unfolding elf_swap host_data swap_value elf_word bswap_32
each_entry-swap_dyn_example =
    each_entry-swap_dyn collect little class32 2 nothing (0, 0) 10 first_entry (second_entry ∷ []) 5
      [] refl (omega arith) (omega arith) (omega arith, tt)
