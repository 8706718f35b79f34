-- ===== src/Identity/Tests.antt =====
-- Numbers in a small environment, and the theorems about them.
use iamroot.Base.{ℕ, ◌≡◌, refl, List, [], ◌∷◌, arith, ◌==◌, if◌then◌else◌}
use iamroot.Base.Bytes.{Bytes, codes, strncmp_eq}
use iamroot.Base.Errno.{Reply, reply}
use iamroot.Env.{
  getenv, setenv, valid, has_equals, begins_with_equals, names, find_value, put, is_some,
}
use iamroot.Identity.{
  no_id, get_id, or_zero, to_id, suid, sgid, getuid, geteuid, getgid, getegid, setuid, set_id,
  store_id, setresuid,
}
use iamroot.Identity.Numbers.{print_unsigned, strtoul}
use iamroot.Identity.Laws.{getresuid-setresuid}

abbrev small : List Bytes
small = codes "IAMROOT_GID=010" ∷ codes "IAMROOT_UID=7" ∷ codes "IAMROOT_EUID= -1" ∷ []

read_all : List ℕ
unfolding getuid geteuid getgid getegid get_id or_zero to_id strtoul getenv valid has_equals
    begins_with_equals names find_value strncmp_eq
read_all = getuid small ∷ geteuid small ∷ getgid small ∷ getegid small ∷ []

-- An octal number, and one that wraps around
bases : read_all ≡ 7 ∷ 4294967295 ∷ 8 ∷ 0 ∷ []
unfolding read_all
bases = refl

stored : Reply (List Bytes)
unfolding setuid set_id store_id setenv print_unsigned put valid has_equals is_some strncmp_eq
stored = setuid 1000 small

replaced :
    stored
    ≡ reply (codes "IAMROOT_GID=010" ∷ codes "IAMROOT_UID=1000" ∷ codes "IAMROOT_EUID= -1" ∷ [])
unfolding stored
replaced = refl

getresuid-setresuid_example :
    (new : List Bytes) × (setresuid 1 no_id 3 small ≡ reply new)
    × (getuid new ≡ (if 1 == no_id then getuid small else 1))
    × (geteuid new ≡ (if no_id == no_id then geteuid small else no_id))
    × (get_id suid new ≡ (if 3 == no_id then get_id suid small else 3))
    × (getgid new ≡ getgid small)
    × (getegid new ≡ getegid small)
    × (get_id sgid new ≡ get_id sgid small)
getresuid-setresuid_example =
    getresuid-setresuid 1 no_id 3 small (omega arith) (omega arith) (omega arith)
