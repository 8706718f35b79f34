-- ===== src/Env/Tests.antt =====
-- A small environment, and the theorems about it.
use iamroot.Base.{◌≡◌, refl, List, [], ◌∷◌, none}
use iamroot.Base.Bytes.{Bytes, codes, streq, strncmp_eq}
use iamroot.Base.Errno.{Reply, reply}
use iamroot.Env.{
  getenv, setenv, unsetenv, putenv, valid, has_equals, name_of, begins_with_equals, names,
  find_value, put, remove, is_some,
}
use iamroot.Env.Refines.{
  unset_variable, put_string, change_all, specify, specify_all, update, view, view-change_all,
}

abbrev small : List Bytes
small = codes "HOME=/root" ∷ codes "A=1" ∷ codes "AB=2" ∷ codes "A=3" ∷ []

-- Names what the runs compute with.
run : Bytes → Reply (List Bytes)
unfolding putenv getenv setenv unsetenv valid has_equals name_of begins_with_equals names find_value
    put remove is_some strncmp_eq
run s = putenv s small

first_replaced :
    run (codes "A=4") ≡ reply (codes "HOME=/root" ∷ codes "A=4" ∷ codes "AB=2" ∷ codes "A=3" ∷ [])
unfolding run
first_replaced = refl

name_removed : run (codes "A") ≡ reply (codes "HOME=/root" ∷ codes "AB=2" ∷ [])
unfolding run
name_removed = refl

-- The specification runs too.
view-change_all_example :
    view (change_all (put_string (codes "A=4") ∷ unset_variable (codes "AB") ∷ []) small)
    ≡ specify_all (put_string (codes "A=4") ∷ unset_variable (codes "AB") ∷ []) (view small)
view-change_all_example =
    view-change_all (put_string (codes "A=4") ∷ unset_variable (codes "AB") ∷ []) small

specified :
    specify_all
      (put_string (codes "A=4") ∷ unset_variable (codes "A") ∷ [])
      (view small)
      (codes "A")
    ≡ none
unfolding run view specify_all specify update streq
specified = refl
