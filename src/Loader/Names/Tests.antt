-- ===== src/Loader/Names/Tests.antt =====
-- The names of the loaders of some systems.
use iamroot.Base.{ℕ, ◌-◌, ◌≡◌, refl, false, ◌&&◌, [], ◌∷◌, Option, none, some, leb, if◌then◌else◌}
use iamroot.Base.Bytes.{Bytes, codes, streq, strneq}
use iamroot.Path.Realpath.{ok}
use iamroot.Loader.Paths.{basename}
use iamroot.Loader.Names.{
  ld_ldso_abi, name_ldso_abi, number_behind, behind_text, scan_netbsd, scan_linux, scan_until,
  has_preload_option, has_option, scan_version,
}

-- A number of one digit
unfoldable pub digit : Bytes → Option (ℕ × Bytes)
digit [] = none
digit (c ∷ s) = if leb 48 c && leb c 57 then some (c - 48, s) else none

named : Bytes → Option (Bytes × Option ℕ)
unfolding ld_ldso_abi name_ldso_abi number_behind behind_text scan_netbsd scan_linux scan_until
    digit basename streq strneq
named path = ld_ldso_abi digit path

gnu : named (codes "/lib64/ld-linux.so.2") ≡ some (codes "linux", some 2)
unfolding named
gnu = refl

netbsd : named (codes "/libexec/ld.elf_so") ≡ some (codes "elf", none)
unfolding named
netbsd = refl

powerpc : named (codes "/lib/ld64.so.1") ≡ some ([], some 1)
unfolding named
powerpc = refl

-- A name without a number is taken as the one of a loader of NetBSD.
other : named (codes "/lib/ld.so.x") ≡ some (codes "so.x", none)
unfolding named
other = refl

old : has_preload_option digit (ok (codes "/lib/ld-2.9.so")) ≡ ok false
unfolding has_preload_option has_option scan_version number_behind behind_text digit basename strneq
old = refl
