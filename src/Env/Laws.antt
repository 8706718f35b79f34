-- ===== src/Env/Laws.antt =====
-- What getenv says after setenv and unsetenv.
use iamroot.Base.{
  subst, suc, ◌≡◌, ◌≢◌, ◌∙◌, sym, refl, true, false, List, [], ◌∷◌, ◌++◌, none, some, length, drop,
  inl, inr, Bool-cases, arith,
}
use iamroot.Base.Bytes.{Bytes, strncmp_eq}
use iamroot.Base.Errno.{Reply, reply, refuse, einval}
use iamroot.Env.{
  equals, has_equals, valid, begins_with_equals, names, find_value, getenv, put, remove, unsetenv,
  setenv,
}

-- A string of the name is one that has the name and '=' in front.
names-assign : (name value : Bytes) → names name (name ++ equals ∷ value) ≡ true
unfolding names strncmp_eq begins_with_equals
names-assign [] value = refl
names-assign (c ∷ name) value = ground (arith, names-assign name value)

drop-assign : (name value : Bytes) → drop (suc (length name)) (name ++ equals ∷ value) ≡ value
drop-assign [] value = refl
drop-assign (c ∷ name) value = drop-assign name value

-- The comparison of __putenv is the one of getenv.
strncmp-names :
    (name value e : Bytes)
    → strncmp_eq (suc (length name)) (name ++ equals ∷ value) e ≡ names name e
unfolding names strncmp_eq begins_with_equals
strncmp-names [] value [] = refl
strncmp-names [] value (b ∷ e) = ground arith
strncmp-names (c ∷ name) value [] = refl
strncmp-names (c ∷ name) value (b ∷ e) = ground (arith, strncmp-names name value e)

pub find_value-put :
    (name value : Bytes) (env : List Bytes)
    → find_value name (put (name ++ equals ∷ value) (length name) env) ≡ some value
unfolding find_value put
find_value-put name value [] = rw (names-assign name value, drop-assign name value) refl
find_value-put name value (e ∷ es) = elim (Bool-cases (names name e)) [
  | inl here ↦
      rw (strncmp-names name value e, here, names-assign name value, drop-assign name value) refl
  | inr there ↦ rw (strncmp-names name value e, there) (rw there (find_value-put name value es))
]

-- No string has two names.
names_one :
    (name other e : Bytes)
    → has_equals name ≡ false
    → has_equals other ≡ false
    → names name e ≡ true
    → names other e ≡ true
    → name ≡ other
unfolding names strncmp_eq begins_with_equals has_equals
names_one [] [] e p q h k = refl
names_one [] (d ∷ other) [] p q h k = cc
names_one [] (d ∷ other) (b ∷ e) p q h k = ground arith
names_one (c ∷ name) [] [] p q h k = cc
names_one (c ∷ name) [] (b ∷ e) p q h k = ground arith
names_one (c ∷ name) (d ∷ other) [] p q h k = cc
names_one (c ∷ name) (d ∷ other) (b ∷ e) p q h k = ground (arith, names_one name other e)

pub find_value-put-other :
    (name other value : Bytes) (env : List Bytes)
    → has_equals name ≡ false
    → has_equals other ≡ false
    → name ≢ other
    → find_value other (put (name ++ equals ∷ value) (length name) env) ≡ find_value other env
unfolding find_value put
find_value-put-other name other value env p q differ = go env
  where
    apart : (e : Bytes) → names name e ≡ true → names other e ≡ false
    apart e h = elim (Bool-cases (names other e)) [
      | inl k ↦ absurd (differ (names_one name other e p q h k))
      | inr k ↦ k
    ]

    go :
        (env : List Bytes)
        → find_value other (put (name ++ equals ∷ value) (length name) env) ≡ find_value other env
    go [] = rw (apart (name ++ equals ∷ value) (names-assign name value)) refl
    go (e ∷ es) = elim (Bool-cases (names name e)) [
      | inl here ↦
          rw
            (
              strncmp-names name value e,
              here,
              apart (name ++ equals ∷ value) (names-assign name value),
              apart e here,
            )
            refl
      | inr there ↦ rw (strncmp-names name value e, there, go es) refl
    ]

pub find_value-remove : (name : Bytes) (env : List Bytes) → find_value name (remove name env) ≡ none
unfolding find_value remove
find_value-remove name [] = refl
find_value-remove name (e ∷ es) = elim (Bool-cases (names name e)) [
  | inl here ↦ rw here (find_value-remove name es)
  | inr there ↦ rw there (rw there (find_value-remove name es))
]

pub find_value-remove-other :
    (name other : Bytes) (env : List Bytes)
    → has_equals name ≡ false
    → has_equals other ≡ false
    → name ≢ other
    → find_value other (remove name env) ≡ find_value other env
unfolding find_value remove
find_value-remove-other name other [] p q differ = refl
find_value-remove-other name other (e ∷ es) p q differ =
    let rest = find_value-remove-other name other es p q differ in
    elim (Bool-cases (names name e)) [
      | inl here ↦ elim (Bool-cases (names other e)) [
        | inl k ↦ absurd (differ (names_one name other e p q here k))
        | inr k ↦ rw (here, k) rest
      ]
      | inr there ↦ rw (there, rest) refl
    ]

pub valid-has_equals : (name : Bytes) → valid name ≡ true → has_equals name ≡ false
unfolding valid
valid-has_equals name h = elim (Bool-cases (has_equals name)) [ inl e ↦ ground arith | inr e ↦ e ]

-- Where the strings of two environments say the same of a name, getenv does.
pub getenv-other :
    (other : Bytes) (env new : List Bytes)
    → (has_equals other ≡ false → find_value other new ≡ find_value other env)
    → getenv other new ≡ getenv other env
unfolding getenv
getenv-other other env new h = elim (Bool-cases (valid other)) [
  | inl v ↦ rw v (h (valid-has_equals other v))
  | inr v ↦ rw v refl
]

pub get-valid :
    (name : Bytes) (env : List Bytes) → valid name ≡ true → getenv name env ≡ find_value name env
unfolding getenv
get-valid name env v = rw v refl

set-valid :
    (name value : Bytes) (env : List Bytes)
    → valid name ≡ true
    → setenv name value true env ≡ reply (put (name ++ equals ∷ value) (length name) env)
unfolding setenv
set-valid name value env v = rw v refl

set-invalid :
    (name value : Bytes) (env : List Bytes)
    → valid name ≡ false
    → setenv name value true env ≡ refuse einval
unfolding setenv
set-invalid name value env v = rw v refl

-- What a list of strings that setenv gives has to say
abbrev Sets : Bytes → Bytes → Bytes → List Bytes → Reply (List Bytes) → Type 0
Sets name value other env (reply new) =
    (getenv name new ≡ some value) × (name ≢ other → getenv other new ≡ getenv other env)
Sets name value other env (refuse n) = Unit

-- What one that unsetenv gives has to say
abbrev Unsets : Bytes → Bytes → List Bytes → Reply (List Bytes) → Type 0
Unsets name other env (reply new) =
    (getenv name new ≡ none) × (name ≢ other → getenv other new ≡ getenv other env)
Unsets name other env (refuse n) = Unit

unsetenv-Unsets :
    (name other : Bytes) (env : List Bytes) → Unsets name other env (unsetenv name env)
unfolding unsetenv
unsetenv-Unsets name other env = elim (Bool-cases (valid name)) [
  | inl v ↦ rw v (
    get-valid name (remove name env) v ∙ find_value-remove name env,
    λ differ.
        getenv-other other env (remove name env)
          λ q. find_value-remove-other name other env (valid-has_equals name v) q differ,
  )
  | inr v ↦ rw v tt
]

-- After an unsetenv that does not fail, getenv finds no value of the name, however often it was in
-- the environment, and getenv of every other name says what it said before.
pub getenv-unsetenv :
    (name other : Bytes) (env new : List Bytes)
    → unsetenv name env ≡ reply new
    → (getenv name new ≡ none) × (name ≢ other → getenv other new ≡ getenv other env)
getenv-unsetenv name other env new e =
    subst (Unsets name other env) e (unsetenv-Unsets name other env)

-- After a setenv that overwrites and that does not fail, getenv of the name says the value, and
-- getenv of every other name says what it said before.
pub getenv-setenv :
    (name value other : Bytes) (env new : List Bytes)
    → setenv name value true env ≡ reply new
    → (getenv name new ≡ some value) × (name ≢ other → getenv other new ≡ getenv other env)
getenv-setenv name value other env new e = elim (Bool-cases (valid name)) [
  | inl v ↦ subst (Sets name value other env) (sym (set-valid name value env v) ∙ e) (
    get-valid name _ v ∙ find_value-put name value env,
    λ differ.
        getenv-other other env _
          λ q. find_value-put-other name other value env (valid-has_equals name v) q differ,
  )
  | inr v ↦ cc (sym (set-invalid name value env v) ∙ e)
]
