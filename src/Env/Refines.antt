-- ===== src/Env/Refines.antt =====
-- The environment as a map from names to values, and a program's changes of it as changes of the map.
use mathlib.Core.Path.{fun_ext}
use iamroot.Base.{
  suc, ◌≡◌, ◌≢◌, ◌∙◌, sym, ap, refl, Bool, true, false, not, ◌&&◌, ◌||◌, List, [], ◌∷◌, ◌++◌,
  Option, none, some, if◌then◌else◌, length, drop, inl, inr, Bool-cases, arith,
}
use iamroot.Base.Bytes.{Bytes, streq, streq_iff}
use iamroot.Base.Errno.{Reply, reply, refuse}
use iamroot.Path.Text.{is_nil}
use iamroot.Env.{
  equals, has_equals, name_of, valid, getenv, put, remove, unsetenv, is_some, setenv, putenv,
}
use iamroot.Env.Laws.{
  find_value-put, find_value-put-other, find_value-remove, find_value-remove-other,
  valid-has_equals, getenv-other, get-valid,
}

-- What a program does with the environment
pub data Change : Type 0 where
  set_variable : Bytes → Bytes → Bool → Change
  unset_variable : Bytes → Change
  put_string : Bytes → Change

-- A call that fails leaves the environment as it is.
unfoldable pub or_unchanged : List Bytes → Reply (List Bytes) → List Bytes
or_unchanged env (reply new) = new
or_unchanged env (refuse e) = env

unfoldable pub change : Change → List Bytes → List Bytes
change (set_variable name value overwrite) env = or_unchanged env (setenv name value overwrite env)
change (unset_variable name) env = or_unchanged env (unsetenv name env)
change (put_string s) env = or_unchanged env (putenv s env)

unfoldable pub change_all : List Change → List Bytes → List Bytes
change_all [] env = env
change_all (c ∷ cs) env = change_all cs (change c env)

-- The specification: a map, with no strings and no order.
abbrev pub Variables : Type 0
Variables = Bytes → Option Bytes

unfoldable pub update : Bytes → Option Bytes → Variables → Variables
update name value m other = if streq name other then value else m other

unfoldable pub specify : Change → Variables → Variables
specify (set_variable name value overwrite) m =
    if valid name && (overwrite || not (is_some (m name))) then update name (some value) m else m
specify (unset_variable name) m = if valid name then update name none m else m
specify (put_string s) m =
    if has_equals s && not (is_nil (name_of s))
    then update (name_of s) (some (drop (suc (length (name_of s))) s)) m
    else if valid s
    then update s none m
    else m

unfoldable pub specify_all : List Change → Variables → Variables
specify_all [] m = m
specify_all (c ∷ cs) m = specify_all cs (specify c m)

-- The map that a list of strings stands for
unfoldable pub view : List Bytes → Variables
view env name = getenv name env

-- Where streq tells two names apart, they are not equal.
streq-ne : (a b : Bytes) → streq a b ≡ false → a ≢ b
streq-ne a b h e = cc (sym ((streq_iff a b).1 e) ∙ h)

view-put :
    (name value other : Bytes) (env : List Bytes)
    → valid name ≡ true
    → getenv other (put (name ++ equals ∷ value) (length name) env)
      ≡ update name (some value) (view env) other
unfolding update view
view-put name value other env v = elim (Bool-cases (streq name other)) [
  | inl same ↦
      rw (same, sym ((streq_iff name other).0 same))
        (get-valid name _ v ∙ find_value-put name value env)
  | inr differ ↦ rw differ (
      getenv-other other env _ λ q.
        find_value-put-other name other value env (valid-has_equals name v) q
          (streq-ne name other differ))
]

view-remove :
    (name other : Bytes) (env : List Bytes)
    → valid name ≡ true
    → getenv other (remove name env) ≡ update name none (view env) other
unfolding update view
view-remove name other env v = elim (Bool-cases (streq name other)) [
  | inl same ↦
      rw (same, sym ((streq_iff name other).0 same))
        (get-valid name _ v ∙ find_value-remove name env)
  | inr differ ↦ rw differ (
      getenv-other other env _ λ q.
        find_value-remove-other name other env (valid-has_equals name v) q
          (streq-ne name other differ))
]

-- A string NAME=value is its name, '=' and its value.
assign-name_of :
    (s : Bytes) → has_equals s ≡ true → s ≡ name_of s ++ equals ∷ drop (suc (length (name_of s))) s
unfolding has_equals name_of
assign-name_of [] h = cc
assign-name_of (c ∷ s) h = ground (arith, assign-name_of s)

has_equals-name_of : (s : Bytes) → has_equals (name_of s) ≡ false
unfolding has_equals name_of
has_equals-name_of [] = refl
has_equals-name_of (c ∷ s) = ground (arith, has_equals-name_of s)

valid-name_of : (s : Bytes) → is_nil (name_of s) ≡ false → valid (name_of s) ≡ true
unfolding valid
valid-name_of s h = rw (h, has_equals-name_of s) refl

same_view : (env : List Bytes) (other : Bytes) → getenv other env ≡ view env other
unfolding view
same_view env other = refl

view-setenv :
    (name value other : Bytes) (overwrite : Bool) (env : List Bytes)
    → getenv other (or_unchanged env (setenv name value overwrite env))
      ≡ specify (set_variable name value overwrite) (view env) other
unfolding or_unchanged setenv specify view
view-setenv name value other true env = elim (Bool-cases (valid name)) [
  | inr bad ↦ rw bad refl
  | inl v ↦ rw v (view-put name value other env v)
]
view-setenv name value other false env = elim (Bool-cases (valid name)) [
  | inr bad ↦ rw bad refl
  | inl v ↦ elim (Bool-cases (is_some (getenv name env))) [
    | inl there ↦ rw (v, there) refl
    | inr absent ↦ rw (v, absent) (view-put name value other env v)
  ]
]

view-unsetenv :
    (name other : Bytes) (env : List Bytes)
    → getenv other (or_unchanged env (unsetenv name env))
      ≡ specify (unset_variable name) (view env) other
unfolding or_unchanged unsetenv specify
view-unsetenv name other env = elim (Bool-cases (valid name)) [
  | inr bad ↦ rw bad (same_view env other)
  | inl v ↦ rw v (view-remove name other env v)
]

view-putenv :
    (s other : Bytes) (env : List Bytes)
    → getenv other (or_unchanged env (putenv s env)) ≡ specify (put_string s) (view env) other
unfolding or_unchanged putenv specify
view-putenv s other env = elim (Bool-cases (has_equals s)) [
  | inr bare ↦ elim (Bool-cases (is_nil (name_of s))) [
    | inl nameless ↦ rw (bare, nameless) (view-unsetenv s other env)
    | inr named ↦ rw (bare, named) (view-unsetenv s other env)
  ]
  | inl h ↦ elim (Bool-cases (is_nil (name_of s))) [
    | inl nameless ↦ rw (h, nameless) (view-unsetenv s other env)
    | inr named ↦
        rw (named, h)
          (ap (λ t. getenv other (put t (length (name_of s)) env)) (assign-name_of s h)
            ∙ view-put (name_of s) (drop (suc (length (name_of s))) s) other env
                (valid-name_of s named))
  ]
]

view-change :
    (c : Change) (env : List Bytes) (other : Bytes)
    → getenv other (change c env) ≡ specify c (view env) other
unfolding change
view-change (set_variable name value overwrite) env other =
    view-setenv name value other overwrite env
view-change (unset_variable name) env other = view-unsetenv name other env
view-change (put_string s) env other = view-putenv s other env

view-change-eq : (c : Change) (env : List Bytes) → view (change c env) ≡ specify c (view env)
unfolding view
view-change-eq c env = fun_ext (view-change c env)

-- Whatever a program does with setenv, unsetenv and putenv, in whatever order, and whether a call
-- fails or not: the map that getenv reads at the end is the one that the specification of these
-- calls makes of the map at the start.
pub view-change_all :
    (cs : List Change) (env : List Bytes) → view (change_all cs env) ≡ specify_all cs (view env)
unfolding change_all specify_all
view-change_all [] env = refl
view-change_all (c ∷ cs) env =
    view-change_all cs (change c env) ∙ ap (specify_all cs) (view-change-eq c env)
