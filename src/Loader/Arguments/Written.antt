-- ===== src/Loader/Arguments/Written.antt =====
-- The words that the steps of __ldso write one behind another.
use iamroot.Base.{
  suc, ◌+◌, ◌<◌, ◌≤◌, ◌≡◌, ◌∙◌, sym, ap, refl, Bool, true, false, ◌&&◌, List, [], ◌∷◌, ◌++◌,
  append_assoc, append-nil, map, Option, none, some, ltb, length, length-append, drop, arith,
}
use iamroot.Base.Bytes.{Bytes, codes}
use iamroot.Base.Errno.{reply}
use iamroot.Path.Realpath.{ok}
use iamroot.Env.{setenv, put, valid, has_equals, equals}
use iamroot.Loader.Arguments.{
  Slots, set, store, Options, shifted, Frame, push, push_all, push_option, push_inhibit_rpath,
  push_if, push_argv0, push_options,
}
use iamroot.Loader.Arguments.Expected.{
  option_words, variable_set, word_if, options_of, environment_of,
}

-- The array s, of which the first slots have been written
abbrev pub written : List Bytes → Slots → List Bytes → Frame
written done s env = record {
  slots = map some done ++ drop (length done) s;
  i = length done;
  env = env;
}

pub set-written :
    (done : List Bytes) (s : Slots) (w : Bytes)
    → length done < length s
    → set (map some done ++ drop (length done) s) (length done) (some w)
      ≡ map some (done ++ w ∷ []) ++ drop (suc (length done)) s
set-written [] [] w h = absurd (omega arith)
set-written [] (x ∷ s) w h = refl
set-written (d ∷ done) [] w h = absurd (omega arith)
set-written (d ∷ done) (x ∷ s) w h = ap (λ l. some d ∷ l) (set-written done s w (omega arith))

pub length-written :
    (done : List Bytes) (s : Slots)
    → length done ≤ length s
    → length (map some done ++ drop (length done) s) ≡ length s
length-written [] s h = refl
length-written (d ∷ done) [] h = absurd (omega arith)
length-written (d ∷ done) (x ∷ s) h = ap suc (length-written done s (omega arith))

pub length-snoc : (l : List Bytes) (w : Bytes) → length (l ++ w ∷ []) ≡ suc (length l)
length-snoc l w = omega (arith, length-append l (w ∷ []))

push-written :
    (w : Bytes) (done : List Bytes) (s : Slots) (env : List Bytes)
    → length done < length s
    → push w (written done s env) ≡ ok (written (done ++ w ∷ []) s env)
unfolding push store
push-written w done s env h =
    let n = length-snoc done w in
    let m : length done + 1 ≡ length (done ++ w ∷ []) = omega arith in
    let size = length-written done s (omega arith) in
    let room : ltb (length done) (length s) ≡ true = ground arith in
    let e : set (map some done ++ drop (length done) s) (length done) (some w)
        ≡ map some (done ++ w ∷ []) ++ drop (length (done ++ w ∷ [])) s =
      set-written done s w h ∙ ap (λ k. map some (done ++ w ∷ []) ++ drop k s) (sym n) in
    rw (size, room) (λ i. ok (record { slots = e i; i = m i; env = env }))

push_all-written :
    (words done : List Bytes) (s : Slots) (env : List Bytes)
    → length (done ++ words) ≤ length s
    → push_all words (written done s env) ≡ ok (written (done ++ words) s env)
unfolding push_all
push_all-written [] done s env h = ap (λ l. ok (written l s env)) (sym (append-nil done))
push_all-written (w ∷ words) done s env h =
    let n = length-append done (w ∷ words) in
    let m = length-append (done ++ w ∷ []) words in
    let k = length-snoc done w in
    rw (push-written w done s env (omega arith)) (
      push_all-written words (done ++ w ∷ []) s env (omega arith)
      ∙ ap (λ l. ok (written l s env)) (append_assoc done (w ∷ []) words))

push_if-written :
    (has : Bool) (w : Bytes) (done : List Bytes) (s : Slots) (env : List Bytes)
    → length (done ++ word_if has w) ≤ length s
    → push_if has w (written done s env) ≡ ok (written (done ++ word_if has w) s env)
unfolding push_if
push_if-written true w done s env h = push-written w done s env (omega (arith, length-snoc done w))
push_if-written false w done s env h = ap (λ l. ok (written l s env)) (sym (append-nil done))

set_variable :
    (var value : Bytes) (env : List Bytes)
    → valid var ≡ true
    → setenv var value true env ≡ reply (put (var ++ equals ∷ value) (length var) env)
unfolding setenv
set_variable var value env v = rw v refl

push_option-written :
    (has : Bool) (name var : Bytes) (v : Option Bytes) (done : List Bytes) (s : Slots)
    (env : List Bytes)
    → valid var ≡ true
    → length (done ++ option_words has name v) ≤ length s
    → push_option has name var v (written done s env)
      ≡ ok (written (done ++ option_words has name v) s (variable_set has var v env))
unfolding push_option
push_option-written has name var none done s env e h =
    ap (λ l. ok (written l s env)) (sym (append-nil done))
push_option-written true name var (some v) done s env e h =
    push_all-written (name ∷ v ∷ []) done s env h
push_option-written false name var (some v) done s env e h =
    rw (set_variable var v env e) (
      ap (λ l. ok (written l s (put (var ++ equals ∷ v) (length var) env))) (sym (append-nil done)))

push_inhibit_rpath-written :
    (has : Bool) (v : Option Bytes) (done : List Bytes) (s : Slots) (env : List Bytes)
    → length (done ++ option_words has (codes "--inhibit-rpath") v) ≤ length s
    → push_inhibit_rpath has v (written done s env)
      ≡ ok (written (done ++ option_words has (codes "--inhibit-rpath") v) s env)
unfolding push_inhibit_rpath
push_inhibit_rpath-written has none done s env h =
    ap (λ l. ok (written l s env)) (sym (append-nil done))
push_inhibit_rpath-written true (some v) done s env h =
    push_all-written (codes "--inhibit-rpath" ∷ v ∷ []) done s env h
push_inhibit_rpath-written false (some v) done s env h =
    ap (λ l. ok (written l s env)) (sym (append-nil done))

push_argv0-written :
    (has : Bool) (argv0 : Bytes) (done : List Bytes) (s : Slots) (env : List Bytes)
    → length (done ++ option_words has (codes "--argv0") (some argv0)) ≤ length s
    → push_argv0 has argv0 (written done s env)
      ≡ ok (
          written
            (done ++ option_words has (codes "--argv0") (some argv0))
            s
            (variable_set has (codes "argv0") (some argv0) env))
unfolding push_argv0 valid has_equals
push_argv0-written true argv0 done s env h =
    push_all-written (codes "--argv0" ∷ argv0 ∷ []) done s env h
push_argv0-written false argv0 done s env h = rw (set_variable (codes "argv0") argv0 env refl) (
    ap (λ l. ok (written l s (put (codes "argv0" ++ equals ∷ argv0) 5 env)))
      (sym (append-nil done)))

valid_preload : valid (codes "LD_PRELOAD") ≡ true
unfolding valid has_equals
valid_preload = refl

valid_library_path : valid (codes "LD_LIBRARY_PATH") ≡ true
unfolding valid has_equals
valid_library_path = refl

pub push_options-written :
    (o : Options) (argv0 : Bytes) (s : Slots) (env : List Bytes)
    → length (options_of o argv0) ≤ length s
    → push_options o argv0 (record { slots = s; i = 0; env = env })
      ≡ ok (written (options_of o argv0) s (environment_of o argv0 env))
unfolding push_options
push_options-written o argv0 s env h =
    let w0 = word_if (shifted o) o.interp in
    let w1 = option_words (shifted o && o.has_preload) (codes "--preload") o.ld_preload in
    let w2 =
      option_words (shifted o && o.has_library_path) (codes "--library-path") o.ld_library_path in
    let w3 =
      option_words (shifted o && o.has_inhibit_rpath) (codes "--inhibit-rpath") o.inhibit_rpath in
    let w4 = word_if (shifted o && o.has_inhibit_cache) (codes "--inhibit-cache") in
    let w5 = option_words (shifted o && o.has_argv0) (codes "--argv0") (some argv0) in
    let h4 = length-append (w0 ++ w1 ++ w2 ++ w3 ++ w4) w5 in
    let h3 = length-append (w0 ++ w1 ++ w2 ++ w3) w4 in
    let h2 = length-append (w0 ++ w1 ++ w2) w3 in
    let h1 = length-append (w0 ++ w1) w2 in
    let h0 = length-append w0 w1 in
    let e0 = variable_set (shifted o && o.has_preload) (codes "LD_PRELOAD") o.ld_preload env in
    let e1 =
      variable_set (shifted o && o.has_library_path) (codes "LD_LIBRARY_PATH") o.ld_library_path
        e0 in
    rw
      (
        push_if-written (shifted o) o.interp [] s env (omega arith),
        push_option-written (shifted o && o.has_preload) (codes "--preload") (codes "LD_PRELOAD")
            o.ld_preload w0 s env valid_preload (omega arith),
        push_option-written (shifted o && o.has_library_path) (codes "--library-path")
            (codes "LD_LIBRARY_PATH") o.ld_library_path (w0 ++ w1) s e0 valid_library_path
            (omega arith),
        push_inhibit_rpath-written (shifted o && o.has_inhibit_rpath) o.inhibit_rpath
            (w0 ++ w1 ++ w2) s e1 (omega arith),
        push_if-written (shifted o && o.has_inhibit_cache) (codes "--inhibit-cache")
            (w0 ++ w1 ++ w2 ++ w3) s e1 (omega arith),
      )
      (push_argv0-written (shifted o && o.has_argv0) argv0 (w0 ++ w1 ++ w2 ++ w3 ++ w4) s e1 h)
