-- ===== src/Loader/Paths/Tests.antt =====
-- Lists of path names that are joined.
use iamroot.Base.{◌≡◌, refl, List, [], ◌∷◌}
use iamroot.Base.Bytes.{Bytes, codes, streq, strncmp_eq}
use iamroot.Base.Errno.{Reply, reply, refuse, enospc}
use iamroot.Env.{getenv, setenv, valid, has_equals, begins_with_equals, names, find_value, put}
use iamroot.Identity.Groups.{tokens, strtok}
use iamroot.Loader.Paths.{
  basename, path_strncat, any_same_base, is_in_preload, is_preloading_so, in_front, setld_preload,
  preload_so, contains, behind, touched, library_path_of, getld_library_path,
}

base : basename (codes "/usr/lib/libc.so") ≡ codes "libc.so"
unfolding basename
base = refl

joined : path_strncat (codes "/lib") (codes "/usr") 10 ≡ reply (codes "/lib:/usr")
unfolding path_strncat
joined = refl

too_long : path_strncat (codes "/lib") (codes "/usr") 9 ≡ refuse enospc
unfolding path_strncat
too_long = refl

preloaded : List Bytes → Reply (List Bytes)
unfolding preload_so is_preloading_so is_in_preload any_same_base basename strtok tokens
    setld_preload in_front getenv setenv valid has_equals begins_with_equals names find_value put
    strncmp_eq
preloaded env = preload_so (codes "/l/libiamroot.so.2") env

put_in_front :
    preloaded (codes "LD_PRELOAD=liba.so" ∷ [])
    ≡ reply (codes "LD_PRELOAD=/l/libiamroot.so.2:liba.so" ∷ [])
unfolding preloaded
put_in_front = refl

-- The same library is put there twice, since only libiamroot.so is looked for.
put_twice :
    preloaded (codes "LD_PRELOAD=/l/libiamroot.so.2" ∷ [])
    ≡ reply (codes "LD_PRELOAD=/l/libiamroot.so.2:/l/libiamroot.so.2" ∷ [])
unfolding preloaded
put_twice = refl

left : List Bytes → Bytes
unfolding getld_library_path library_path_of touched contains behind getenv valid has_equals
    begins_with_equals names find_value streq strncmp_eq
left env = getld_library_path 4096 env

stripped : left (codes "LD_LIBRARY_PATH=/a:/b" ∷ codes "ld_library_path=/a" ∷ []) ≡ codes "/b"
unfolding left
stripped = refl

untouched : left (codes "LD_LIBRARY_PATH=/a" ∷ codes "ld_library_path=/a" ∷ []) ≡ []
unfolding left
untouched = refl
