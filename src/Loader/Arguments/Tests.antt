-- ===== src/Loader/Arguments/Tests.antt =====
-- The arguments of a script for the loader of glibc 2.31, and the theorem about them.
use iamroot.Base.{◌≡◌, refl, true, false, List, [], ◌∷◌, ◌++◌, map, none, some, arith, inl, length}
use iamroot.Base.Bytes.{Bytes, codes}
use iamroot.Path.Realpath.{Outcome, ok}
use iamroot.Env.{setenv, put, valid, has_equals}
use iamroot.Loader.Arguments.{
  Slots, Options, Frame, arrange, strings, count_args, shift_up, load, store, push_options, push,
  push_all, push_option, push_inhibit_rpath, push_if, push_argv0, finish, total_shift, shifted,
  ◌>>=◌,
}
use iamroot.Loader.Arguments.Expected.{options_of, environment_of}
use iamroot.Loader.Arguments.Arranged.{arrange-strings}

abbrev glibc : Options
glibc = record {
  shift = 1;
  has_argv0 = false;
  has_preload = true;
  has_library_path = true;
  has_inhibit_rpath = true;
  has_inhibit_cache = true;
  interp = codes "/r/lib/ld-2.31.so";
  ld_preload = some (codes "/lib/libiamroot.so");
  ld_library_path = some (codes "/r/lib");
  inhibit_rpath = none;
}

abbrev tail : List Bytes
tail = codes "-x" ∷ codes "/s" ∷ []

abbrev rest : Slots
rest = map (λ l. none) (tail ++ tail ++ tail ++ tail ++ tail) ++ none ∷ []

run : Outcome Frame
unfolding arrange count_args shift_up load store push_options push push_all push_option
    push_inhibit_rpath push_if push_argv0 finish total_shift shifted setenv put valid has_equals
run =
    arrange glibc (codes "/r/bin/sh") (codes "sh") (map some (codes "sh" ∷ tail) ++ none ∷ rest) []

words :
    (run >>= λ f. strings f.slots)
    ≡ ok (
        codes "/r/lib/ld-2.31.so"
        ∷ codes "--preload"
        ∷ codes "/lib/libiamroot.so"
        ∷ codes "--library-path"
        ∷ codes "/r/lib"
        ∷ codes "--inhibit-cache"
        ∷ codes "/r/bin/sh"
        ∷ tail)
unfolding run strings
words = refl

variables : (run >>= λ f. ok f.env) ≡ ok (codes "argv0=sh" ∷ [])
unfolding run
variables = refl

arrange-strings_example :
    (f : Frame) × (arrange glibc
        (codes "/r/bin/sh")
        (codes "sh")
        (map some (codes "sh" ∷ tail) ++ none ∷ rest)
        []
      ≡ ok f)
    × (strings f.slots ≡ ok (options_of glibc (codes "sh") ++ codes "/r/bin/sh" ∷ tail))
    × (f.i ≡ length (options_of glibc (codes "sh") ++ codes "/r/bin/sh" ∷ tail))
    × (f.env ≡ environment_of glibc (codes "sh") [])
arrange-strings_example =
    arrange-strings glibc (codes "/r/bin/sh") (codes "sh") tail rest [] (inl refl) (omega arith)
      (omega arith)
