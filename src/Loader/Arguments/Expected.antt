-- ===== src/Loader/Arguments/Expected.antt =====
-- The words in front of the path name that __ldso is meant to give, and the environment.
use iamroot.Base.{
  ◌≡◌, ◌⊎◌, Bool, ◌&&◌, List, [], ◌∷◌, ◌++◌, Option, none, some, if◌then◌else◌, length,
}
use iamroot.Base.Bytes.{Bytes, codes}
use iamroot.Env.{put, equals}
use iamroot.Loader.Arguments.{Options, total_shift, shifted}

-- An option, its value, if it has one, and the variable that stands for it
abbrev pub option_words : Bool → Bytes → Option Bytes → List Bytes
option_words has name none = []
option_words has name (some value) = if has then name ∷ value ∷ [] else []

abbrev pub variable_set : Bool → Bytes → Option Bytes → List Bytes → List Bytes
variable_set has var none env = env
variable_set has var (some value) env =
    if has then env else put (var ++ equals ∷ value) (length var) env

abbrev pub word_if : Bool → Bytes → List Bytes
word_if has word = if has then word ∷ [] else []

-- What is put in front of the path of the program
abbrev pub options_when : Bool → Options → Bytes → List Bytes
options_when sh o argv0 =
    word_if sh o.interp
    ++ option_words (sh && o.has_preload) (codes "--preload") o.ld_preload
    ++ option_words (sh && o.has_library_path) (codes "--library-path") o.ld_library_path
    ++ option_words (sh && o.has_inhibit_rpath) (codes "--inhibit-rpath") o.inhibit_rpath
    ++ word_if (sh && o.has_inhibit_cache) (codes "--inhibit-cache")
    ++ option_words (sh && o.has_argv0) (codes "--argv0") (some argv0)

abbrev pub options_of : Options → Bytes → List Bytes
options_of o argv0 = options_when (shifted o) o argv0

-- The environment of the program
abbrev pub environment_of : Options → Bytes → List Bytes → List Bytes
environment_of o argv0 env = variable_set (shifted o && o.has_argv0) (codes "argv0") (some argv0) (
    variable_set (shifted o && o.has_library_path) (codes "LD_LIBRARY_PATH") o.ld_library_path
      (variable_set (shifted o && o.has_preload) (codes "LD_PRELOAD") o.ld_preload env))

-- Where the loader can be run, or has no options at all
abbrev pub IsCoherent : Options → Type 0
IsCoherent o = (o.shift ≡ 1) ⊎ (total_shift o ≡ 0)
