-- ===== src/Loader/Names.antt =====
-- dso.c: what the name of a loader says, by __ld_ldso_abi and __ld_linux_version with the three tests
-- for options. What %i of sscanf reads at the start of a text, a number and what is left, is a
-- parameter; a sign is left out.
pub mod Tests
use iamroot.Base.{
  ℕ, zero, suc, Bool, true, false, ◌&&◌, ◌||◌, List, [], ◌∷◌, Option, none, some, ◌==◌, ltb, leb,
  if◌then◌else◌, length, drop,
}
use iamroot.Base.Bytes.{Bytes, codes, streq, strneq}
use iamroot.Base.Errno.{enotsup}
use iamroot.Path.Text.{is_nil}
use iamroot.Path.Realpath.{Outcome, ok, fail, overrun, out_of_fuel}
use iamroot.Loader.Paths.{basename}

-- What follows a text that is matched literally
unfoldable pub behind_text : Bytes → Bytes → Option Bytes
behind_text t s = if strneq s t then some (drop (length t) s) else none

-- %255[^c]: at most n bytes that are not c, and what follows them
unfoldable pub scan_until : ℕ → ℕ → Bytes → Bytes × Bytes
scan_until zero c s = ([], s)
scan_until (suc n) c [] = ([], [])
scan_until (suc n) c (b ∷ s) =
    let (w, rest) = scan_until n c s in if b == c then ([], b ∷ s) else (b ∷ w, rest)

-- NAME_MAX
abbrev pub width : ℕ
width = 255

module _ (scan_int : Bytes → Option (ℕ × Bytes)) where
  abbrev number_of : Option (ℕ × Bytes) → Option ℕ
  number_of none = none
  number_of (some (n, rest)) = some n

  abbrev number_in : Option Bytes → Option ℕ
  number_in none = none
  number_in (some s) = number_of (scan_int s)

  -- sscanf(name, "ld.so.%i", abi), and so on: the number, if n == 1
  unfoldable pub number_behind : Bytes → Bytes → Option ℕ
  number_behind t s = number_in (behind_text t s)

  -- sscanf(name, "ld-%255[^.].so.%i", ldso, abi): both, if n == 2
  abbrev with_abi : Bytes → Option ℕ → Option (Bytes × Option ℕ)
  with_abi ldso none = none
  with_abi ldso (some abi) = some (ldso, some abi)

  abbrev linux_parts : Bytes × Bytes → Option (Bytes × Option ℕ)
  linux_parts (ldso, rest) =
      if is_nil ldso then none else with_abi ldso (number_behind (codes ".so.") rest)

  unfoldable pub scan_linux : Option Bytes → Option (Bytes × Option ℕ)
  scan_linux none = none
  scan_linux (some s) = linux_parts (scan_until width 46 s)

  -- sscanf(name, "ld.%255[^_]_so", ldso): what follows ldso is not looked at.
  abbrev netbsd_part : Bytes × Bytes → Option Bytes
  netbsd_part (ldso, rest) = if is_nil ldso then none else some ldso

  unfoldable pub scan_netbsd : Option Bytes → Option Bytes
  scan_netbsd none = none
  scan_netbsd (some s) = netbsd_part (scan_until width 95 s)

  abbrev or_netbsd : Bytes → Option Bytes → Option (Bytes × Option ℕ)
  or_netbsd name (some ldso) = some (ldso, none)
  or_netbsd name none = scan_linux (behind_text (codes "ld-") name)

  abbrev or_ld64 : Bytes → Option ℕ → Option (Bytes × Option ℕ)
  or_ld64 name (some abi) = some ([], some abi)
  or_ld64 name none = or_netbsd name (scan_netbsd (behind_text (codes "ld.") name))

  abbrev or_ld : Bytes → Option ℕ → Option (Bytes × Option ℕ)
  or_ld name (some abi) = some ([], some abi)
  or_ld name none = or_ld64 name (number_behind (codes "ld64.so.") name)

  unfoldable pub name_ldso_abi : Bytes → Option (Bytes × Option ℕ)
  name_ldso_abi name =
      if streq name (codes "ld.so")
      then some ([], none)
      else or_ld name (number_behind (codes "ld.so.") name)

  -- __ld_ldso_abi(path, ldso, abi): ldso and abi, where -1 is `none`, or ENOTSUP
  unfoldable pub ld_ldso_abi : Bytes → Option (Bytes × Option ℕ)
  ld_ldso_abi path = name_ldso_abi (basename path)

  -- sscanf(..., "ld-%i.%i.so", major, minor): both, if n is 2
  abbrev with_major : ℕ → Option ℕ → Option (ℕ × ℕ)
  with_major major none = none
  with_major major (some minor) = some (major, minor)

  abbrev behind_major : Option (ℕ × Bytes) → Option (ℕ × ℕ)
  behind_major none = none
  behind_major (some (major, rest)) = with_major major (number_behind (codes ".") rest)

  abbrev scan_parts : Option Bytes → Option (ℕ × ℕ)
  scan_parts none = none
  scan_parts (some s) = behind_major (scan_int s)

  unfoldable pub scan_version : Bytes → Option (ℕ × ℕ)
  scan_version name = scan_parts (behind_text (codes "ld-") name)

  -- The option is there since glibc 2.least, and in a loader of which the version is not known.
  abbrev pub since : ℕ → Option (ℕ × ℕ) → Bool
  since least none = true
  since least (some (maj, min)) = ltb 2 maj || (maj == 2 && leb least min)

  -- __ld_linux_version with what follows it in each of the three tests, where the path name is
  -- resolved
  unfoldable pub has_option : ℕ → Outcome Bytes → Outcome Bool
  has_option least (ok buf) = ok (since least (scan_version (basename buf)))
  has_option least (fail e) = if e == enotsup then ok true else fail e
  has_option least overrun = overrun
  has_option least out_of_fuel = out_of_fuel

  -- __ld_linux_has_inhibit_cache_option, __ld_linux_has_argv0_option and __ld_linux_has_preload_option
  unfoldable pub has_inhibit_cache_option : Outcome Bytes → Outcome Bool
  has_inhibit_cache_option resolved = has_option 16 resolved

  unfoldable pub has_argv0_option : Outcome Bytes → Outcome Bool
  has_argv0_option resolved = has_option 33 resolved

  unfoldable pub has_preload_option : Outcome Bytes → Outcome Bool
  has_preload_option resolved = has_option 30 resolved
