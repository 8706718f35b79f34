-- ===== src/Path/Realpath/Absolute.antt =====
-- What `__realpathat` makes of an absolute path name.
use iamroot.Base.{◌≡◌, ◌⊎◌, true, false}
use iamroot.Base.Bytes.{Bytes}
use iamroot.Path.Text.{is_slash, is_nil}
use iamroot.Path.Canonical.{IsName, IsCanonical}
use iamroot.Path.Fs.{Fs}
use iamroot.Path.Realpath.{Walk, Round, again, finished, is_up}

-- The output is canonical, and no .. waits to be applied to the working directory.
record HasRoot (w : Walk) : Type 0 where
  canonical : IsCanonical w.out
  no_ups : w.nup ≡ 0

-- The stack begins with a slash, or the output has begun with one.
abbrev Rooted : Walk → Type 0
Rooted w = (is_slash w.rest ≡ true) ⊎ HasRoot w

abbrev Keeps : Round → Type 0
Keeps (again w) = Rooted w
Keeps (finished w) = HasRoot w
Keeps _ = Unit

-- A component as the loop reads it: a name, .., or nothing.
abbrev Reads : Bytes → Type 0
Reads c = is_up c ≡ false → is_nil c ≡ false → IsName c
