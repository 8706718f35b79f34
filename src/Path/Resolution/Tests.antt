-- ===== src/Path/Resolution/Tests.antt =====
-- Runs of path resolution below /srv/r, and the theorems about it at concrete inputs.
use iamroot.Base.{◌&&◌, false, ltb, ℕ, ◌⊎◌, ◌<◌, ◌≡◌, refl, ◌++◌, some, arith, length}
use iamroot.Base.Bytes.{Bytes, codes, streq, strleq, strneq}
use iamroot.Base.Errno.{enametoolong, enoent, einval, refuse}
use iamroot.Path.Sanitize.{path_sanitize}
use iamroot.Path.Sanitize.Below.{IsRoot}
use iamroot.Path.Sanitize.Names.{components, is_dotted, path_sanitize-components}
use iamroot.Path.Text.{ends_in_slash, is_slash}
use iamroot.Path.Realpath.{Outcome, ok, fail, fuel, realpathat}
use iamroot.Path.Realpath.Tests.{sample}
use iamroot.Path.Resolution.{
  cwd, at_none, at_nofollow, pr_none, pr_nowalkalong, path_resolution2, add_prefix, on_prefixed,
  follow_links, try_realpath, keep_below, root_prefix, strip_prefix, strip_ignored, print_path,
}
use iamroot.Path.Resolution.{fd, relative_to, fpath}
use iamroot.Path.Resolution.Errors.{path_resolution2-errors}
use iamroot.Path.Resolution.Bounds.{path_resolution2-fits}
use iamroot.Path.Resolution.Confined.{path_resolution2-below, path_resolution2-contained}
use iamroot.Root.{getrootdir}

-- Names what a run computes with.
run : Bytes → Outcome Bytes
unfolding path_resolution2 sample fuel streq strneq add_prefix print_path root_prefix getrootdir
    strip_prefix strleq on_prefixed follow_links try_realpath realpathat path_sanitize strip_ignored
    keep_below
run path =
    path_resolution2 fuel sample (some (codes "/srv/r")) 0 cwd (some path) 4096 at_none pr_none

follows : run (codes "/bin/sh") ≡ ok (codes "/srv/r/usr/bin/sh")
unfolding run
follows = refl

-- The parent of the root directory can be reached.
leaves_root : run (codes "/../x") ≡ ok (codes "/srv/x")
unfolding run
leaves_root = refl

too_long :
    path_resolution2 fuel sample
      (some (codes "/srv/r"))
      0
      cwd
      (some (codes "/a/b"))
      8
      at_none
      pr_none
    ≡ fail enametoolong
unfolding run
too_long = refl

-- A relative path name with two slashes behind the dot
path_sanitize-components_example :
    (components (path_sanitize (codes ".//a/.")) ≡ components (codes ".//a/."))
    × (is_slash (path_sanitize (codes ".//a/.")) ≡ is_slash (codes ".//a/."))
    × ((ends_in_slash (path_sanitize (codes ".//a/."))
          && ltb 1 (length (path_sanitize (codes ".//a/."))))
        ≡ false)
    × (is_dotted (path_sanitize (codes ".//a/.")) ≡ false)
path_sanitize-components_example = path_sanitize-components (codes ".//a/.")

srv-IsRoot : IsRoot (codes "/srv/r")
srv-IsRoot = record { absolute = refl; solid = (refl, refl) }

path_resolution2-fits_example : length (codes "/srv/r/a") < 4096
unfolding run
path_resolution2-fits_example =
    path_resolution2-fits fuel sample (some (codes "/srv/r")) 0 cwd (some (codes "/a")) 4096 at_none
      pr_none (codes "/srv/r/a") (omega arith) refl

path_resolution2-below_example :
    (rest : Bytes) × (back : Bytes) × (path_resolution2 fuel sample
        (some (codes "/srv/r"))
        0
        cwd
        (some (codes "/a/."))
        4096
        at_nofollow
        pr_nowalkalong
      ≡ ok (codes "/srv/r" ++ rest))
    × (codes "/a/." ≡ rest ++ back)
unfolding sample streq strneq strleq
path_resolution2-below_example =
    path_resolution2-below fuel sample (codes "/srv/r") 0 cwd (codes "/a/.") 4096 srv-IsRoot
      (λ rest back e. refl) refl refl refl (omega arith) (omega arith) (omega arith)

-- The directory /srv/rx is no part of /srv/r.
path_resolution2-contained_example :
    path_resolution2 fuel sample
      (some (codes "/srv/r"))
      0
      cwd
      (some (codes "/srv/rx/y"))
      4096
      at_nofollow
      pr_nowalkalong
    ≡ ok (codes "/srv/rx/y")
unfolding sample streq strneq
path_resolution2-contained_example =
    path_resolution2-contained fuel sample (codes "/srv/r") (codes "x/y") 0 cwd 4096 srv-IsRoot
      (record { absolute = refl; solid = (refl, refl) }) refl refl refl (omega arith) (omega arith)

-- A descriptor whose link cannot be read
path_resolution2-errors_example :
    (enoent ≡ einval) ⊎ (enoent ≡ enametoolong) ⊎ ((n : ℕ) × (sample.fd_link n ≡ refuse enoent))
unfolding run relative_to fpath
path_resolution2-errors_example =
    path_resolution2-errors fuel sample (some (codes "/srv/r")) 0 (fd 3) (some (codes "a")) 4096
      at_none pr_none enoent refl
