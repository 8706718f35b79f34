-- ===== src/Identity/Groups.antt =====
-- setgroups.c and getgroups.c, with __group_iterate of iamroot.c: the groups of the process stand in
-- one variable of the environment. BUFSIZ and NGROUPS_MAX are those of the GNU C library.
pub mod Laws
pub mod Tests
use iamroot.Base.{
  ℕ, suc, ◌+◌, ◌-◌, ◌%◌, Bool, true, false, not, ◌&&◌, List, [], ◌∷◌, ◌++◌, Option, none, some,
  ◌==◌, ltb, length, take, if◌then◌else◌,
}
use iamroot.Base.Bytes.{Bytes, codes, path_max}
use iamroot.Base.Errno.{Reply, reply, refuse, einval, enospc}
use iamroot.Path.Text.{is_nil}
use iamroot.Env.{getenv, setenv, unsetenv}
use iamroot.Identity.{or_zero}
use iamroot.Identity.Numbers.{print_unsigned, strtoul}

abbrev pub groups_variable : Bytes
groups_variable = codes "IAMROOT_GROUPS"

abbrev pub bufsiz : ℕ
bufsiz = 8192

abbrev pub ngroups_max : ℕ
ngroups_max = 65536

-- i > 0 ? " " : ""
abbrev pub separator : ℕ → Bytes
separator i = if ltb 0 i then codes " " else []

-- The loop of setgroups from i on, with what stands in buf
unfoldable pub print_groups : ℕ → Bytes → List ℕ → Reply Bytes
print_groups i buf [] = reply buf
print_groups i buf (g ∷ list) =
    let rest = print_groups (suc i) (buf ++ (separator i ++ print_unsigned g)) list in
    if ltb (length (separator i ++ print_unsigned g)) (bufsiz - length buf)
    then rest
    else refuse enospc

unfoldable pub store_groups : Reply Bytes → List Bytes → Reply (List Bytes)
store_groups (refuse e) env = refuse e
store_groups (reply buf) env = setenv groups_variable buf true env

unfoldable pub setgroups : List ℕ → List Bytes → Reply (List Bytes)
setgroups [] env = unsetenv groups_variable env
setgroups (g ∷ list) env =
    if ltb ngroups_max (length (g ∷ list))
    then refuse einval
    else store_groups (print_groups 0 [] (g ∷ list)) env

-- The next byte is one of a token.
abbrev pub goes_on : ℕ → Bytes → Bool
goes_on delim [] = false
goes_on delim (c ∷ s) = not (c == delim)

-- A byte in front of the first token
abbrev pub push : ℕ → List Bytes → List Bytes
push c [] = (c ∷ []) ∷ []
push c (token ∷ tokens) = (c ∷ token) ∷ tokens

-- What strtok_r gives of a text, one after the other
unfoldable pub tokens : ℕ → Bytes → List Bytes
tokens delim [] = []
tokens delim (c ∷ s) =
    let rest = tokens delim s in
    if c == delim then rest else if goes_on delim s then push c rest else (c ∷ []) ∷ rest

-- __strtok(str, delim, ...): the callback is called with each of these, as long as it gives 0. What
-- __strlen does not count, the bytes from PATH_MAX on, is left out of the copy.
unfoldable pub strtok : ℕ → Bytes → List Bytes
strtok delim str = tokens delim (take path_max str)

-- groups_t, with what was written into the list, which may be NULL, from its first element on; a
-- listsize that is negative is left out.
pub record Groups : Type 0 where
  pub listsize : ℕ
  pub list : Option (List ℕ)
  pub size : ℕ

abbrev pub write : Option (List ℕ) → ℕ → Option (List ℕ)
write none id = none
write (some list) id = some (list ++ id ∷ [])

unfoldable pub add_group : Reply ℕ → Groups → Reply Groups
add_group (refuse e) groups = refuse e
add_group (reply ul) groups =
    if ltb 0 groups.listsize && not (ltb groups.size groups.listsize)
    then refuse einval
    else reply (record groups {
      list =
          if ltb groups.size groups.listsize
          then write groups.list (ul % 4294967296)
          else groups.list;
      size = groups.size + 1;
    })

-- __id_callback(id, user)
unfoldable pub id_callback : Bytes → Groups → Reply Groups
id_callback id groups = add_group (strtoul id) groups

unfoldable pub go_on : Reply Groups → (Groups → Reply Groups) → Reply Groups
go_on (refuse e) rest = refuse e
go_on (reply groups) rest = rest groups

-- The loop of __strtok with this callback
unfoldable pub iterate : List Bytes → Groups → Reply Groups
iterate [] groups = reply groups
iterate (token ∷ rest) groups = go_on (id_callback token groups) λ g. iterate rest g

abbrev pub is_null : Option (List ℕ) → Bool
is_null none = true
is_null (some list) = false

-- getgroups(listsize, list), with the list and the number of the groups in the reply
unfoldable pub getgroups : ℕ → Option (List ℕ) → List Bytes → Reply Groups
getgroups listsize list env =
    if not (listsize == 0) && is_null list
    then refuse einval
    else iterate (strtok 32 (or_zero (getenv groups_variable env)))
        (record { listsize = listsize; list = list; size = 0 })
