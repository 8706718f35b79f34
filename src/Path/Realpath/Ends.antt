-- ===== src/Path/Realpath/Ends.antt =====
-- The loop of `__realpathat` ends within its rounds, unless a path-resolution attribute is set.
use iamroot.Base.{
  ℕ, zero, suc, ◌+◌, ◌-◌, ◌*◌, ◌≤◌, ◌<◌, ◌≡◌, refl, ap, ◌≢◌, inl, inr, Bool, true, false, not, ◌&&◌,
  [], ◌∷◌, arith, leb, if◌then◌else◌, length, length-append, Bool-cases,
}
use iamroot.Base.Bytes.{Bytes, codes, path_max, streq, streq→eq}
use iamroot.Base.Errno.{Reply, reply, refuse, enoent}
use iamroot.Path.Text.{
  skip_slashes, component, after, is_slash, is_nil, join, length-skip_slashes-le,
  length-component-after,
}
use iamroot.Path.Fs.{Fs}
use iamroot.Path.Realpath.{
  symloop_max, Outcome, ok, fail, overrun, out_of_fuel, Walk, Round, again, finished, failed,
  overran, restart, is_up, skip_readlink, rooted, proceed, push_link, on_link, ask_link,
  on_attribute, examine, enter, round, loop, rounds_per_link, fuel, finish_loop, finish, realpathat,
  start, tail,
}

-- No file has the attribute user.iamroot.path-resolution.
abbrev pub NoAttribute : Fs → Type 0
NoAttribute fs = (path : Bytes) → (e : ℕ) × (fs.path_xattr path ≡ refuse e)

abbrev flag : Bool → ℕ
flag b = if b then 1 else 0

-- The rounds that text and flag may take before the next link.
weight : Bytes → Bool → ℕ
weight t b = 2 * length t + flag b

-- What falls in each round.
measure : Walk → ℕ
unfolding weight
measure w = (symloop_max - w.cnt) * rounds_per_link + weight w.rest w.check_dir

abbrev Within : Walk → Type 0
Within w = (w.cnt < symloop_max) × (length w.rest ≤ path_max)

-- A round that goes on does so within the limits, with a measure below `m`.
abbrev Falls : ℕ → Round → Type 0
Falls m (again w) = Within w × (measure w < m)
Falls m _ = Unit

length-tail : (s : Bytes) → is_slash s ≡ true → length (tail s) + 1 ≡ length s
length-tail [] h = ground arith
length-tail (c ∷ s) h = omega arith

length-is_nil : (s : Bytes) → is_nil s ≡ false → 0 < length s
length-is_nil [] h = ground arith
length-is_nil (c ∷ s) h = omega arith

weight-after :
    (s : Bytes) (b : Bool)
    → is_slash s ≡ false
    → (is_nil (component s) && not b) ≡ false
    → weight (after s) (not (is_nil (after s))) < weight s b
unfolding weight component after
weight-after [] b h g = ground arith
weight-after (c ∷ s) b h g = ground (arith, length-component-after s)

length-rest : (s : Bytes) (b : Bool) → 2 * length s ≤ weight s b
unfolding weight
length-rest s b = ground arith

weight-skip_slashes : (s : Bytes) (b : Bool) → weight (skip_slashes s) b ≤ weight s b
unfolding weight
weight-skip_slashes s b = omega (arith, length-skip_slashes-le s)

module _ {m : ℕ} (w : Walk) (c t : Bytes) (links : w.cnt < symloop_max) (fits : length t ≤ path_max)
    (falls : (symloop_max - w.cnt) * rounds_per_link + weight t (not (is_nil t)) < m) where
  skip_readlink-Falls : Falls m (again (skip_readlink w c t))
  unfolding skip_readlink measure weight
  skip_readlink-Falls = ground (arith, length-skip_slashes-le t)

  module _ (fs : Fs) (root : Bytes) (errno_save : ℕ) where
    push_link-Falls :
        (follow : Bool) (link : Bytes) → Falls m (push_link fs root follow errno_save w t link)
    unfolding push_link measure weight
    push_link-Falls follow link = ground (
      arith,
      length-append (rooted root link) t,
      length-append (rooted root link) (skip_slashes t),
      length-skip_slashes-le t,
    )

restart-Falls :
    (w : Walk)
    → w.cnt < symloop_max
    → length w.rest ≤ path_max
    → is_slash w.rest ≡ true
    → Falls (measure w) (again (restart w))
unfolding restart measure weight
restart-Falls w links fits s =
    ground (arith, length-skip_slashes-le (tail w.rest), length-tail w.rest)

length-streq : (s p : Bytes) → streq s p ≡ true → length s ≡ length p
length-streq s p h = ap length (streq→eq s p h)

proceed_ends :
    {m : ℕ} (r : Round) (next : Walk → Outcome Walk)
    → Falls m r
    → ((w : Walk) → Within w → measure w < m → next w ≢ out_of_fuel)
    → proceed next r ≢ out_of_fuel
unfolding proceed
proceed_ends (again w) next h k = k w h.0 h.1
proceed_ends (finished w) next h k = cc
proceed_ends (failed e) next h k = cc
proceed_ends overran next h k = cc

-- The rounds for one component: `c` is taken off, and `t` remains.
module _ (fs : Fs) (root : Bytes) (follow : Bool) (errno_save : ℕ) where
  on_link-Falls :
      {m : ℕ} (w : Walk) (c t : Bytes) (r : Reply Bytes)
      → w.cnt < symloop_max
      → length t ≤ path_max
      → (symloop_max - w.cnt) * rounds_per_link + weight t (not (is_nil t)) < m
      → Falls m (on_link fs root follow errno_save w c t r)
  unfolding on_link
  on_link-Falls w c t (reply link) links fits falls = ground (
    arith,
    skip_readlink-Falls w c t links fits falls,
    push_link-Falls w c t links fits falls fs root errno_save follow link,
  )
  on_link-Falls w c t (refuse e) links fits falls = ground (
    arith,
    skip_readlink-Falls (record w { errno = enoent }) c t links fits falls,
    skip_readlink-Falls (record w { errno = errno_save }) c t links fits falls,
  )

  enter-Falls :
      NoAttribute fs
      → {m : ℕ} (w : Walk) (c t : Bytes) → w.cnt < symloop_max
      → length t ≤ path_max
      → (symloop_max - w.cnt) * rounds_per_link + weight t (not (is_nil t)) < m
      → (is_up c ≡ true → (symloop_max - w.cnt) * rounds_per_link + weight t w.check_dir < m)
      → Falls m (enter fs root follow errno_save w c t)
  unfolding enter examine ask_link on_attribute measure weight
  enter-Falls plain w c t links fits falls up = ground (
    arith,
    (plain (join w.out c)).1,
    length-skip_slashes-le t,
    skip_readlink-Falls w c t links fits falls,
    on_link-Falls (record w { errno = errno_save }) c t (fs.readlink (join w.out c)) links fits
        falls,
  )

  round-Falls :
      NoAttribute fs → (w : Walk) → Within w → Falls (measure w) (round fs root follow errno_save w)
  unfolding round measure weight
  round-Falls plain w (links, fits) = elim (Bool-cases (is_slash w.rest)) [
    | inl s ↦ rw s (restart-Falls w links fits s)
    | inr s ↦ rw s (
        ground (
          arith,
          length-component-after w.rest,
          length-is_nil (component w.rest),
          length-streq (component w.rest) (codes "."),
          length-streq (component w.rest) (codes ".."),
          length-skip_slashes-le (after w.rest),
          weight-after w.rest w.check_dir s,
          enter-Falls plain {m = measure w} w (component w.rest) (after w.rest) links,
        ))
  ]

  -- With a measure below the rounds, the loop ends.
  loop_ends :
      NoAttribute fs
      → (f : ℕ) (w : Walk) → Within w
      → measure w < f
      → loop fs root follow errno_save f w ≢ out_of_fuel
  unfolding loop
  loop_ends plain zero w h m = absurd (omega arith)
  loop_ends plain (suc f) w h m =
      proceed_ends (round fs root follow errno_save w) (loop fs root follow errno_save f)
        (round-Falls plain w h) λ w' h' m'. loop_ends plain f w' h' (omega arith)

if_ends :
    (b : Bool) (e : ℕ) (r : Outcome Bytes)
    → r ≢ out_of_fuel
    → (if b then fail e else r) ≢ out_of_fuel
if_ends true e r h = λ p. cc p
if_ends false e r h = h

finish_ends : (fs : Fs) (w : Walk) → finish fs w ≢ out_of_fuel
unfolding finish
finish_ends fs w = ground arith

finish_loop_ends : (fs : Fs) (r : Outcome Walk) → r ≢ out_of_fuel → finish_loop fs r ≢ out_of_fuel
unfolding finish_loop
finish_loop_ends fs (ok w) h = finish_ends fs w
finish_loop_ends fs (fail e) h = cc
finish_loop_ends fs overrun h = cc
finish_loop_ends fs out_of_fuel h = absurd (h refl)

start-fits : (path : Bytes) (errno : ℕ) → length path < path_max → measure (start path errno) < fuel
unfolding measure weight fuel
start-fits path errno h = omega arith

-- Enough rounds for every path name: where no file has a path-resolution attribute, the function
-- gives a path name, an error or an overrun of its buffer, and never runs out of rounds.
pub realpathat-ends :
    (fs : Fs) (root : Bytes) (follow : Bool) (errno_save : ℕ) (path : Bytes)
    → NoAttribute fs
    → realpathat fuel fs root follow errno_save path ≢ out_of_fuel
unfolding realpathat
realpathat-ends fs root follow errno_save path plain =
    elim (Bool-cases (leb path_max (length path))) [
      | inl long ↦ rw long (ground arith)
      | inr short ↦ rw short (
          if_ends (is_nil path) _ _ (
            finish_loop_ends fs _ (
              loop_ends fs root follow errno_save plain fuel (start path errno_save)
                (omega arith, ground arith) (start-fits path errno_save (ground arith)))))
    ]
