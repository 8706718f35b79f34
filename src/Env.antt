-- ===== src/Env.antt =====
-- env.c: the environment as the list of its strings, NAME=value, without their storage. NULL is the
-- empty list, and memory is never short.
pub mod Laws
pub mod Refines
pub mod Tests
use iamroot.Base.{
  ℕ, suc, ◌+◌, Bool, true, false, not, ◌&&◌, ◌||◌, List, [], ◌∷◌, ◌++◌, Option, none, some, ◌==◌,
  if◌then◌else◌, length, drop,
}
use iamroot.Base.Bytes.{Bytes, strncmp_eq}
use iamroot.Base.Errno.{Reply, reply, refuse, einval}
use iamroot.Path.Text.{is_nil}

-- '='
abbrev pub equals : ℕ
equals = 61

unfoldable pub has_equals : Bytes → Bool
has_equals [] = false
has_equals (c ∷ s) = c == equals || has_equals s

-- What stands before `__strchrnul(s, '=')`
unfoldable pub name_of : Bytes → Bytes
name_of [] = []
name_of (c ∷ s) = let rest = name_of s in if c == equals then [] else c ∷ rest

-- l && !name[l], of l = __strchrnul(name, '=') - name
unfoldable pub valid : Bytes → Bool
valid name = not (is_nil name) && not (has_equals name)

unfoldable pub begins_with_equals : Bytes → Bool
begins_with_equals [] = false
begins_with_equals (c ∷ s) = c == equals

-- !strncmp(name, *e, l) && l[*e] == '='
unfoldable pub names : Bytes → Bytes → Bool
names name e = strncmp_eq (length name) name e && begins_with_equals (drop (length name) e)

-- The loop of getenv
unfoldable pub find_value : Bytes → List Bytes → Option Bytes
find_value name [] = none
find_value name (e ∷ es) =
    let rest = find_value name es in
    if names name e then some (drop (suc (length name)) e) else rest

-- getenv(name)
unfoldable pub getenv : Bytes → List Bytes → Option Bytes
getenv name env = if valid name then find_value name env else none

-- __putenv(s, l, r): the first string of this name is replaced, or s is put at the end.
unfoldable pub put : Bytes → ℕ → List Bytes → List Bytes
put s l [] = s ∷ []
put s l (e ∷ es) = let rest = put s l es in if strncmp_eq (suc l) s e then s ∷ es else e ∷ rest

-- The loop of unsetenv
unfoldable pub remove : Bytes → List Bytes → List Bytes
remove name [] = []
remove name (e ∷ es) = let rest = remove name es in if names name e then rest else e ∷ rest

-- unsetenv(name)
unfoldable pub unsetenv : Bytes → List Bytes → Reply (List Bytes)
unsetenv name env = if valid name then reply (remove name env) else refuse einval

unfoldable pub is_some : Option Bytes → Bool
is_some none = false
is_some (some v) = true

-- setenv(var, value, overwrite)
unfoldable pub setenv : Bytes → Bytes → Bool → List Bytes → Reply (List Bytes)
setenv var value overwrite env =
    if not (valid var)
    then refuse einval
    else if not overwrite && is_some (getenv var env)
    then reply env
    else reply (put (var ++ equals ∷ value) (length var) env)

-- putenv(s)
unfoldable pub putenv : Bytes → List Bytes → Reply (List Bytes)
putenv s env =
    if is_nil (name_of s) || not (has_equals s)
    then unsetenv s env
    else reply (put s (length (name_of s)) env)
