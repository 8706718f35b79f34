-- ===== src/Loader/Preload.antt =====
-- dso.c: the shared objects that a program needs, by __felf_needed and __elf_needed, and the ones that
-- __ldso_preload_executable puts behind the library of iamroot in the list to preload. The end of the
-- fuel is the result `exhausted`, and of the list only what the buffer holds is a result.
pub mod Ends
pub mod Tests
use iamroot.Base.{
  ℕ, zero, suc, Bool, true, false, not, List, [], ◌∷◌, Option, none, some, ◌==◌, if◌then◌else◌,
}
use iamroot.Base.Bytes.{Bytes, codes, slash, path_max}
use iamroot.Base.Errno.{Reply, reply, refuse}
use iamroot.Identity.Groups.{strtok}
use iamroot.Elf.{Order}
use iamroot.Elf.Interp.{File, on_reply}
use iamroot.Elf.Dynamic.{Value, integer, text, minus_one, iterate_shared_object}
use iamroot.Script.{text_of}
use iamroot.Calls.{Proc, Ran, back, crashed, stuck}
use iamroot.Loader.Paths.{colon, basename, path_strncat, is_in_path}

-- DT_NEEDED
abbrev pub dt_needed : ℕ
dt_needed = 1

-- What __path_callback does with the reply of __path_strncat
abbrev pub appended : Bytes → Reply Bytes → ℕ × Bytes
appended p (reply s) = (0, s)
appended p (refuse e) = (minus_one, p)

-- __path_callback(data, datasiz, user), where a number is not a text
unfoldable pub path_callback : Value → Bytes → ℕ × Bytes
path_callback (integer n) p = (minus_one, p)
path_callback (text bs) p = appended p (path_strncat p (text_of bs) path_max)

abbrev pub unless_failed : ℕ × Bytes → Option Bytes
unless_failed (r, s) = if r == minus_one then none else some s

-- __felf_needed(fd, buf, bufsiz)
unfoldable pub felf_needed : Order → File → Option Bytes
felf_needed order f = unless_failed (iterate_shared_object path_callback order f dt_needed [])

abbrev pub needed_of : Order → Reply File → Option Bytes
needed_of order (reply f) = felf_needed order f
needed_of order (refuse e) = none

-- __elf_needed(path, buf, bufsiz), where `open` is next_open(path, O_RDONLY | O_CLOEXEC, 0)
unfoldable pub elf_needed : Order → (Bytes → Reply File) → Bytes → Option Bytes
elf_needed order open_file path = needed_of order (open_file path)

-- How the walk ends: with the list, with -1, as path resolution does where it has no result, or
-- without fuel
pub data Walked : Type 0 where
  walked : Bytes → Proc → Walked
  failed : Proc → Walked
  lost : Walked
  exhausted : Walked

abbrev pub and_then : Walked → (Bytes → Proc → Walked) → Walked
and_then (walked buf p) k = k buf p
and_then (failed p) k = failed p
and_then lost k = lost
and_then exhausted k = exhausted

abbrev pub on_access : Ran Bytes → (Bytes → Proc → Walked) → Walked
on_access (back (some so) p) k = k so p
on_access (back none p) k = failed p
on_access crashed k = lost
on_access stuck k = lost

abbrev pub is_absolute : Bytes → Bool
is_absolute [] = false
is_absolute (c ∷ s) = c == slash

-- The host answers what a file needs, __path_access(needed, F_OK, deflib, ...) looks for a library, and
-- is_lib is the regular expression of the names of libraries.
module _ (needs : Bytes → Option Bytes) (access : Bytes → Proc → Ran Bytes) (is_lib : Bytes → Bool)
    (bufsiz : ℕ) where
  -- __ldso_preload_needed_callback(needed, user)
  unfoldable pub on_needed : (Bytes → Bytes → Proc → Walked) → Bytes → Bytes → Proc → Walked
  on_needed preload needed buf p =
      if is_absolute needed
      then walked buf p
      else on_access (access needed p) λ so q.
        if not (is_lib (basename so))
        then walked buf q
        else if is_in_path so buf
        then walked buf q
        else preload so buf q

  -- __path_iterate over what is needed
  unfoldable pub each_needed : (Bytes → Bytes → Proc → Walked) → List Bytes → Bytes → Proc → Walked
  each_needed preload [] buf p = walked buf p
  each_needed preload (needed ∷ more) buf p =
      and_then (on_needed preload needed buf p) λ b q. each_needed preload more b q

  abbrev pub on_needs : (Bytes → Bytes → Proc → Walked) → Option Bytes → Bytes → Proc → Walked
  on_needs preload none buf p = failed p
  on_needs preload (some needed) buf p = each_needed preload (strtok colon needed) buf p

  abbrev pub on_room : Proc → Reply Bytes → (Bytes → Walked) → Walked
  on_room p (reply buf) k = k buf
  on_room p (refuse e) k = failed (record p { errno = e })

  -- __ldso_preload_needed(path, deflib, buf, bufsiz, offset), on fuel
  unfoldable pub preload_needed : ℕ → Bytes → Bytes → Proc → Walked
  preload_needed zero path buf p = exhausted
  preload_needed (suc fuel) path buf p =
      on_room p (path_strncat buf path bufsiz)
        λ b. on_needs (λ so c q. preload_needed fuel so c q) (needs path) b p

  -- __ldso_preload_executable(path, deflib, buf, bufsiz, offset)
  unfoldable pub preload_executable : ℕ → Bytes → Bytes → Proc → Walked
  preload_executable fuel path buf p =
      on_needs (λ so c q. preload_needed fuel so c q) (needs path) buf p
