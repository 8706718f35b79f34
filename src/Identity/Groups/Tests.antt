-- ===== src/Identity/Groups/Tests.antt =====
-- Groups in a small environment, and the theorem about them.
use iamroot.Base.{ℕ, ◌≡◌, refl, List, [], ◌∷◌, some, arith}
use iamroot.Base.Bytes.{Bytes, codes, strncmp_eq}
use iamroot.Base.Errno.{Reply, reply, refuse, einval}
use iamroot.Env.{
  getenv, setenv, valid, has_equals, begins_with_equals, names, find_value, put, remove, unsetenv,
  is_some,
}
use iamroot.Identity.{or_zero}
use iamroot.Identity.Numbers.{print_unsigned, strtoul}
use iamroot.Identity.Groups.{
  Groups, print_groups, store_groups, setgroups, tokens, strtok, add_group, id_callback, iterate,
  go_on, getgroups,
}
use iamroot.Identity.Groups.Laws.{getgroups-setgroups}

abbrev small : List Bytes
small = codes "PWD=/" ∷ codes "IAMROOT_GROUPS=10  0x14 " ∷ []

stored : List ℕ → Reply (List Bytes)
unfolding setgroups store_groups print_groups setenv print_unsigned put valid has_equals is_some
    strncmp_eq unsetenv remove names begins_with_equals
stored list = setgroups list small

replaced : stored (0 ∷ 27 ∷ 100 ∷ []) ≡ reply (codes "PWD=/" ∷ codes "IAMROOT_GROUPS=0 27 100" ∷ [])
unfolding stored
replaced = refl

read_groups : ℕ → List Bytes → Reply Groups
unfolding getgroups or_zero getenv find_value valid has_equals begins_with_equals names strncmp_eq
    strtok tokens iterate go_on id_callback add_group strtoul
read_groups n env = getgroups n (some []) env

two : read_groups 2 small ≡ reply (record { listsize = 2; list = some (10 ∷ 20 ∷ []); size = 2 })
unfolding read_groups
two = refl

too_many : read_groups 1 small ≡ refuse einval
unfolding read_groups
too_many = refl

counted : read_groups 0 small ≡ reply (record { listsize = 0; list = some []; size = 2 })
unfolding read_groups
counted = refl

-- Of no groups, the variable is removed,
none_left : stored [] ≡ reply (codes "PWD=/" ∷ [])
unfolding stored
none_left = refl

-- and the group 0 is read.
group_zero :
    read_groups 8 (codes "PWD=/" ∷ [])
    ≡ reply (record { listsize = 8; list = some (0 ∷ []); size = 1 })
unfolding read_groups
group_zero = refl

getgroups-setgroups_example :
    (new : List Bytes) × (setgroups (27 ∷ 100 ∷ []) small ≡ reply new)
    × (getgroups 8 (some []) new
        ≡ reply (record { listsize = 8; list = some (27 ∷ 100 ∷ []); size = 2 }))
getgroups-setgroups_example =
    getgroups-setgroups (27 ∷ 100 ∷ []) 8 small (omega arith) (omega arith)
      (omega arith, (omega arith, tt)) (omega arith)
