-- ===== src/Loader/Arguments.antt =====
-- dso.c: the part of __ldso that puts the path of the loader and its options in front of the
-- arguments, in the array interparg, or the environment. The array is the list of its pointers,
-- where NULL is `none`; a read or a write that passes its end is the result `overrun`.
pub mod Slots
pub mod Expected
pub mod Written
pub mod Counted
pub mod Arranged
pub mod Tests
use iamroot.Base.{
  ℕ, zero, suc, ◌+◌, Bool, true, false, ◌&&◌, List, [], ◌∷◌, Option, none, some, ltb, if◌then◌else◌,
  length, get_elem?, not, ◌==◌,
}
use iamroot.Base.Bytes.{Bytes, codes}
use iamroot.Base.Errno.{Reply, reply, refuse}
use iamroot.Path.Realpath.{Outcome, ok, fail, overrun, out_of_fuel}
use iamroot.Env.{setenv}

abbrev pub Slots : Type 0
Slots = List (Option Bytes)

infixl 5 ◌>>=◌
abbrev pub ◌>>=◌ {ℓ κ} : {A : Type ℓ} {B : Type κ} → Outcome A → (A → Outcome B) → Outcome B
ok a >>= f = f a
fail e >>= f = fail e
overrun >>= f = overrun
out_of_fuel >>= f = out_of_fuel

abbrev pub set : Slots → ℕ → Option Bytes → Slots
set [] i v = []
set (x ∷ s) zero v = v ∷ s
set (x ∷ s) (suc i) v = x ∷ set s i v

abbrev pub in_array : Option (Option Bytes) → Outcome (Option Bytes)
in_array none = overrun
in_array (some a) = ok a

-- interparg[i]
unfoldable pub load : Slots → ℕ → Outcome (Option Bytes)
load s i = in_array (get_elem? s i)

-- interparg[i] = v;
unfoldable pub store : Slots → ℕ → Option Bytes → Outcome Slots
store s i v = if ltb i (length s) then ok (set s i v) else overrun

-- for (arg = interparg; *arg; arg++) i++;
unfoldable pub count_args : Slots → Outcome ℕ
count_args [] = overrun
count_args (none ∷ s) = ok 0
count_args (some a ∷ s) = count_args s >>= λ n. ok (suc n)

-- for (j = i+shift; j > shift; j--) interparg[j] = interparg[j-shift]; with k for j-shift
unfoldable pub shift_up : ℕ → ℕ → Slots → Outcome Slots
shift_up zero shift s = ok s
shift_up (suc k) shift s =
    load s (suc k) >>= (λ a. store s (suc k + shift) a >>= (λ t. shift_up k shift t))

-- What __ldso knows when it comes to the arguments: `shift` is 1 if the loader can be run itself, and 0 if not.
pub record Options : Type 0 where
  pub shift : ℕ
  pub has_argv0 : Bool
  pub has_preload : Bool
  pub has_library_path : Bool
  pub has_inhibit_rpath : Bool
  pub has_inhibit_cache : Bool
  pub interp : Bytes
  pub ld_preload : Option Bytes
  pub ld_library_path : Option Bytes
  pub inhibit_rpath : Option Bytes

abbrev pub is_set : Option Bytes → Bool
is_set none = false
is_set (some v) = true

-- shift, when all is counted
unfoldable pub total_shift : Options → ℕ
total_shift o =
    o.shift
    + (if o.has_argv0 then 2 else 0)
    + (if o.has_preload && is_set o.ld_preload then 2 else 0)
    + (if o.has_library_path && is_set o.ld_library_path then 2 else 0)
    + (if o.has_inhibit_rpath && is_set o.inhibit_rpath then 2 else 0)
    + (if o.has_inhibit_cache then 1 else 0)

-- if (shift)
unfoldable pub shifted : Options → Bool
shifted o = not (total_shift o == 0)

-- interparg with i, and the environment
pub record Frame : Type 0 where
  pub slots : Slots
  pub i : ℕ
  pub env : List Bytes

-- interparg[i++] = word;
unfoldable pub push : Bytes → Frame → Outcome Frame
push word f =
    store f.slots f.i (some word) >>= λ s. ok (record { slots = s; i = f.i + 1; env = f.env })

unfoldable pub push_all : List Bytes → Frame → Outcome Frame
push_all [] f = ok f
push_all (word ∷ words) f = push word f >>= λ g. push_all words g

-- err = _setenv(var, value, 1); if (err == -1) return -1;
abbrev pub with_env : Frame → Reply (List Bytes) → Outcome Frame
with_env f (reply env) = ok (record { slots = f.slots; i = f.i; env = env })
with_env f (refuse e) = fail e

-- An option with its value, if there is one, or else the variable
unfoldable pub push_option : Bool → Bytes → Bytes → Option Bytes → Frame → Outcome Frame
push_option has name var none f = ok f
push_option has name var (some value) f =
    if has then push_all (name ∷ value ∷ []) f else with_env f (setenv var value true f.env)

-- --inhibit-rpath, which has no variable
unfoldable pub push_inhibit_rpath : Bool → Option Bytes → Frame → Outcome Frame
push_inhibit_rpath has none f = ok f
push_inhibit_rpath has (some value) f =
    if has then push_all (codes "--inhibit-rpath" ∷ value ∷ []) f else ok f

unfoldable pub push_if : Bool → Bytes → Frame → Outcome Frame
push_if has word f = if has then push word f else ok f

-- --argv0, or the variable argv0; NULL is not an argument 0.
unfoldable pub push_argv0 : Bool → Bytes → Frame → Outcome Frame
push_argv0 has argv0 f =
    if has
    then push_all (codes "--argv0" ∷ argv0 ∷ []) f
    else with_env f (setenv (codes "argv0") argv0 true f.env)

-- interparg[i] = path; i += j; interparg[i] = NULL; return i;
unfoldable pub finish : Bytes → ℕ → Frame → Outcome Frame
finish path n f =
    store f.slots f.i (some path)
    >>= (λ s. store s (f.i + n) none >>= (λ t. ok (record { slots = t; i = f.i + n; env = f.env })))

-- The words that are put in front, in their order
unfoldable pub push_options : Options → Bytes → Frame → Outcome Frame
push_options o argv0 f =
    push_if (shifted o) o.interp f
    >>= push_option (shifted o && o.has_preload) (codes "--preload") (codes "LD_PRELOAD")
        o.ld_preload
    >>= push_option (shifted o && o.has_library_path) (codes "--library-path")
        (codes "LD_LIBRARY_PATH") o.ld_library_path
    >>= push_inhibit_rpath (shifted o && o.has_inhibit_rpath) o.inhibit_rpath
    >>= push_if (shifted o && o.has_inhibit_cache) (codes "--inhibit-cache")
    >>= push_argv0 (shifted o && o.has_argv0) argv0

-- What follows "Shift enough room in interparg" in __ldso, where interparg[0] is argv0
unfoldable pub arrange : Options → Bytes → Bytes → Slots → List Bytes → Outcome Frame
arrange o path argv0 s env = count_args s >>= λ n. shift_up n (total_shift o) s >>= λ t.
    push_options o argv0 (record { slots = t; i = 0; env = env }) >>= finish path n

-- The strings of the array up to NULL, as the loops of execve read them
unfoldable pub strings : Slots → Outcome (List Bytes)
strings [] = overrun
strings (none ∷ s) = ok []
strings (some a ∷ s) = strings s >>= λ l. ok (a ∷ l)
