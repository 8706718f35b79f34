-- ===== src/Elf/Tests.antt =====
-- ELF files of 32 and 64 bits in both encodings, and the theorems about them.
use iamroot.Base.{
  ℕ, ◌<◌, ◌≡◌, ap, subst, ◌≢◌, refl, inr, Bool, true, false, ◌&&◌, [], ◌∷◌, ltb, length, take, drop,
  arith,
}
use iamroot.Base.Bytes.{Bytes, codes, streq}
use iamroot.Base.Bits.{has_bit}
use iamroot.Base.Errno.{Reply, reply, refuse}
use iamroot.Elf.{
  little, big, class32, Ehdr, load, bswap_16, bswap_32, host_data, elf_swap, elf_half, elf_word,
  elf_long, half_at, word_at, long_at, byte_at, first, phdr_size, ehdr32, ehdr64, load_phdr,
}
use iamroot.Elf.Fields.{IsEncoding, AllBytes, take-AllBytes, drop-AllBytes}
use iamroot.Elf.Interp.{
  File, on_reply, all_of, elf_magic, on_class, load_ehdr, at_start, read_interp, elf_ehdr,
  felf_header, elf_phdr, find_interp, elf_interp32, interp_of, felf_interp,
}
use iamroot.Elf.Interp.Agreement
use iamroot.Elf.Interp.Agreement.{felf_interp_same}
use iamroot.Elf.Interp.Found.{IsFirst, find_interp-IsFirst}
use iamroot.Elf.Mapped.{
  got, fault, on_got, copy, Image, on_host, after_callback, elf_header, program_header, use_segment,
  iterate_for_pt, elf32_iterate_for_pt, iterate_class, iterate_header, iterate_shared_object_for_pt,
  has_interp_callback, interp_result, has_interp,
}
use iamroot.Elf.Mapped.Safe.{IsSafe, has_interp-IsSafe}
use iamroot.Elf.Mapped.Wraps.{has_interp-faults}
use iamroot.Elf.Executable.{Program, Candidate, on_magic, fcan_exec, can_exec}
use iamroot.Elf.Executable.Sound.{Runs, can_exec-Runs}

are_bytes : Bytes → Bool
are_bytes [] = true
are_bytes (b ∷ bs) = ltb b 256 && are_bytes bs

are_bytes-AllBytes : (bs : Bytes) → are_bytes bs ≡ true → AllBytes bs
unfolding are_bytes
are_bytes-AllBytes [] h = tt
are_bytes-AllBytes (b ∷ bs) h = (ground arith, are_bytes-AllBytes bs (ground arith))

-- "/ld"
abbrev loader : Bytes
loader = codes "/ld"

-- An ELF32 program for big-endian hosts, with one header at 52, of the segment at 84
abbrev pub program32 : Bytes
program32 =
    127
    ∷ 69
    ∷ 76
    ∷ 70
    ∷ 1
    ∷ 2
    ∷ 1
    ∷ 0
    ∷ 0
    ∷ 0
    ∷ 0
    ∷ 0
    ∷ 0
    ∷ 0
    ∷ 0
    ∷ 0
    ∷ 0
    ∷ 2
    ∷ 0
    ∷ 20
    ∷ 0
    ∷ 0
    ∷ 0
    ∷ 1
    ∷ 0
    ∷ 0
    ∷ 0
    ∷ 0
    ∷ 0
    ∷ 0
    ∷ 0
    ∷ 52
    ∷ 0
    ∷ 0
    ∷ 0
    ∷ 0
    ∷ 0
    ∷ 0
    ∷ 0
    ∷ 0
    ∷ 0
    ∷ 52
    ∷ 0
    ∷ 32
    ∷ 0
    ∷ 1
    ∷ 0
    ∷ 0
    ∷ 0
    ∷ 0
    ∷ 0
    ∷ 0
    ∷ 0
    ∷ 0
    ∷ 0
    ∷ 3
    ∷ 0
    ∷ 0
    ∷ 0
    ∷ 84
    ∷ 0
    ∷ 0
    ∷ 0
    ∷ 0
    ∷ 0
    ∷ 0
    ∷ 0
    ∷ 0
    ∷ 0
    ∷ 0
    ∷ 0
    ∷ 3
    ∷ 0
    ∷ 0
    ∷ 0
    ∷ 3
    ∷ 0
    ∷ 0
    ∷ 0
    ∷ 4
    ∷ 0
    ∷ 0
    ∷ 0
    ∷ 1
    ∷ codes "/ld"

-- An ELF64 program for little-endian hosts, whose program headers begin at 2 ^ 64 - 8
abbrev program64 : Bytes
program64 =
    127 ∷ 69 ∷ 76 ∷ 70 ∷ 2 ∷ 1 ∷ 1 ∷ 0 ∷ 0 ∷ 0 ∷ 0 ∷ 0 ∷ 0 ∷ 0 ∷ 0 ∷ 0 ∷ 2 ∷ 0 ∷ 62 ∷ 0 ∷ 1 ∷ 0 ∷ 0
    ∷ 0 ∷ 0 ∷ 0 ∷ 0 ∷ 0 ∷ 0 ∷ 0 ∷ 0 ∷ 0 ∷ 248 ∷ 255 ∷ 255 ∷ 255 ∷ 255 ∷ 255 ∷ 255 ∷ 255 ∷ 0 ∷ 0 ∷ 0
    ∷ 0 ∷ 0 ∷ 0 ∷ 0 ∷ 0 ∷ 0 ∷ 0 ∷ 0 ∷ 0 ∷ 64 ∷ 0 ∷ 56 ∷ 0 ∷ 1 ∷ 0 ∷ 0 ∷ 0 ∷ 0 ∷ 0 ∷ 0 ∷ 0 ∷ []

abbrev open_file : Bytes → File
open_file content = record {
  pread = λ n off. reply (take n (drop off content));
  rewind = reply 0;
  read = λ n. reply (take n content);
}

abbrev image_of : Bytes → Image
image_of content = record { st_size = reply (length content); mmap = λ n. reply content }

-- The interpreter of the program on either host
named :
    (felf_interp little (open_file program32) 255 ≡ reply loader)
    × (felf_interp big (open_file program32) 255 ≡ reply loader)
unfolding felf_interp felf_header at_start elf_ehdr on_reply all_of on_class interp_of elf_interp32
    find_interp elf_phdr read_interp load_ehdr ehdr32 load_phdr phdr_size half_at word_at elf_half
    elf_word elf_swap host_data bswap_16 bswap_32 load byte_at first streq elf_magic
named = (refl, refl)

payload : Reply Bytes → Bytes
payload (reply bs) = bs
payload (refuse e) = []

replied : (P : Bytes → Type 0) (cs bs : Bytes) → reply cs ≡ reply bs → P cs → P bs
unfolding payload
replied P cs bs e h = subst P (ap payload e) h

program32-AllBytes : AllBytes program32
unfolding are_bytes
program32-AllBytes = are_bytes-AllBytes program32 refl

open_file-GivesBytes : Agreement.GivesBytes (open_file program32)
open_file-GivesBytes = record {
  of_read = λ n bs e. replied AllBytes _ bs e (take-AllBytes n program32 program32-AllBytes);
  of_pread = λ n off bs e.
      replied AllBytes _ bs e (take-AllBytes n _ (drop-AllBytes off program32 program32-AllBytes));
}

encoding : byte_at (take 64 program32) 5 ≡ 2
unfolding byte_at first
encoding = refl

felf_interp_same_example :
    felf_interp little (open_file program32) 255 ≡ felf_interp big (open_file program32) 255
felf_interp_same_example =
    felf_interp_same little big (open_file program32) 255 open_file-GivesBytes
      λ bs e. replied (λ cs. IsEncoding (byte_at cs 5)) _ bs e (inr encoding)

abbrev header32 : Ehdr
header32 = ehdr32 little (take 64 program32)

finds : find_interp little (open_file program32) class32 header32 255 1 52 ≡ reply loader
unfolding on_reply all_of find_interp elf_phdr read_interp ehdr32 load_phdr phdr_size word_at
    elf_word elf_swap host_data bswap_32 load byte_at first
finds = refl

find_interp-IsFirst_example :
    (i : ℕ) × (i < 1) × IsFirst little (open_file program32) class32 header32 52 255 i loader
find_interp-IsFirst_example =
    find_interp-IsFirst little (open_file program32) class32 header32 255 1 52 loader (omega arith)
      finds

class_of : byte_at program32 4 ≢ 2
unfolding byte_at first
class_of = ground arith

has_interp-IsSafe_example : IsSafe (has_interp little (image_of program32))
has_interp-IsSafe_example =
    has_interp-IsSafe little (image_of program32)
      (record { bytes = λ n addr e. replied AllBytes _ addr e program32-AllBytes })
      λ n addr e. replied (λ cs. byte_at cs 4 ≢ 2) _ addr e class_of

header64 : elf_header little program64 ≡ got (ehdr64 little program64)
unfolding elf_header copy on_class load_ehdr byte_at first streq elf_magic
header64 = refl

has_interp-faults_example : has_interp little (image_of program64) ≡ fault
unfolding ehdr64 half_at long_at elf_half elf_long elf_swap host_data load byte_at first
has_interp-faults_example =
    has_interp-faults little (image_of program64) 64 0 program64 (ehdr64 little program64) refl refl
      refl (omega arith) header64 refl refl refl (omega arith) (omega arith)

abbrev pub candidate : Candidate
candidate = record {
  st_mode = reply 493;
  opened = reply (record {
    st_mode = reply 493;
    read = λ n. reply (take n program32);
    image = image_of program32;
  });
}

pub runs : can_exec little candidate ≡ got 1
unfolding can_exec fcan_exec on_magic on_host has_bit has_interp iterate_shared_object_for_pt
    iterate_header iterate_class elf32_iterate_for_pt iterate_for_pt program_header use_segment
    after_callback has_interp_callback interp_result on_got copy elf_header on_class load_ehdr
    ehdr32 load_phdr phdr_size half_at word_at elf_half elf_word elf_swap host_data bswap_16
    bswap_32 load byte_at first streq elf_magic
runs = refl

can_exec-Runs_example :
    (host_mode : ℕ) × (p : Program) × (mode : ℕ) × (magic : Bytes) × (candidate.st_mode
      ≡ reply host_mode)
    × (has_bit 11 host_mode ≡ false)
    × (candidate.opened ≡ reply p)
    × (p.st_mode ≡ reply mode)
    × (has_bit 6 mode ≡ true)
    × (p.read 4 ≡ reply magic)
    × Runs little p.image magic
can_exec-Runs_example = can_exec-Runs little candidate runs
