-- ===== src/Path/Realpath.antt =====
-- `__realpathat` of path_resolution.c (musl's realpath(3) with iamroot's changes), as it is built
-- for Linux. The buffer `stack` holds the remaining components at its end, so its position p is
-- PATH_MAX less the length of `rest`; `out` is output[0..q). Both keep the source's limits.
pub mod Ends
pub mod Overrun
pub mod Fits
pub mod Cycle
pub mod Absolute
pub mod Tests
use iamroot.Base.{
  ℕ, zero, suc, ◌+◌, ◌-◌, ◌*◌, ◌/◌, ◌%◌, Bool, true, false, not, ◌&&◌, ◌||◌, [], ◌∷◌, ◌++◌, arith,
  ltb, leb, ◌==◌, ◌≡◌, Bool-cases, inl, inr, if◌then◌else◌, length, take, drop, drop_last,
}
use iamroot.Base.Bytes.{Bytes, codes, slash, path_max, streq}
use iamroot.Base.Errno.{Reply, reply, refuse, enoent, einval, enametoolong, eloop}
use iamroot.Path.Text.{
  skip_slashes, component, after, up_to_slash, is_slash, ends_in_slash, pop, piece, join, is_nil,
}
use iamroot.Path.Fs.{Fs}

abbrev pub symloop_max : ℕ
symloop_max = 40

-- The result of a function over fixed buffers. `overrun` is a write past the free part of the
-- buffer, where C has no defined behaviour; `out_of_fuel` belongs to the model alone.
pub data Outcome {ℓ} (A : Type ℓ) : Type ℓ where
  ok : A → Outcome A
  fail : ℕ → Outcome A
  overrun : Outcome A
  out_of_fuel : Outcome A

-- The local variables of the loop, with errno.
pub record Walk : Type 0 where
  pub rest : Bytes
  pub out : Bytes
  pub nup : ℕ
  pub cnt : ℕ
  pub check_dir : Bool
  pub errno : ℕ

-- How a round of the loop ends: `continue` or `goto restart`, `break`, or a return.
pub data Round : Type 0 where
  again : Walk → Round
  finished : Walk → Round
  failed : ℕ → Round
  overran : Round

-- The value of p when `t` is what remains.
abbrev pub room : Bytes → ℕ
room t = path_max - length t

abbrev pub tail : Bytes → Bytes
tail [] = []
tail (c ∷ s) = s

-- The stack begins with a slash: the output starts anew. A leading // is kept.
unfoldable pub restart : Walk → Walk
restart w =
    let t = tail w.rest in
    record w {
      rest = skip_slashes t;
      out = if is_slash t && not (is_slash (tail t)) then slash ∷ slash ∷ [] else slash ∷ [];
      nup = 0;
      check_dir = false;
    }

abbrev pub is_up : Bytes → Bool
is_up c = streq c (codes "..")

-- The label skip_readlink: the component is no link.
unfoldable pub skip_readlink : Walk → Bytes → Bytes → Walk
skip_readlink w c t = record w {
  rest = skip_slashes t;
  out = if is_up c then pop w.out else if is_nil c then w.out else join w.out c;
  check_dir = if is_up c then false else not (is_nil t);
}

-- The contents of an absolute link in a chroot get the root directory in front.
unfoldable pub rooted : Bytes → Bytes → Bytes
rooted root k = if is_slash k && not (streq root (codes "/")) then take path_max root ++ k else k

-- From a round to what the loop does next.
unfoldable pub proceed : (Walk → Outcome Walk) → Round → Outcome Walk
proceed next (again w) = next w
proceed next (finished w) = ok w
proceed next (failed e) = fail e
proceed next overran = overrun

module _ (fs : Fs) (root : Bytes) (follow : Bool) (errno_save : ℕ) where
  -- From `if (++cnt == SYMLOOP_MAX)` to the end of the loop's body.
  unfoldable pub push_link : Walk → Bytes → Bytes → Round
  push_link w t link =
      let k = rooted root link in
      if w.cnt + 1 == symloop_max
      then failed eloop
      else if ltb (room t) (length k)
      then overran
      else again (record w {
        rest = k ++ (if ends_in_slash k then skip_slashes t else t);
        cnt = w.cnt + 1;
      })

  -- What follows from the result of readlink(output, stack, p).
  unfoldable pub on_link : Walk → Bytes → Bytes → Reply Bytes → Round
  on_link w c t (reply link) =
      if leb (room t) (length link)
      then failed enametoolong
      else if is_nil link
      then if w.errno == enoent then again (skip_readlink w c t) else failed enoent
      else push_link w t link
  on_link w c t (refuse e) =
      if e == enoent
      then again (skip_readlink (record w { errno = enoent }) c t)
      else if e == einval
      then again (skip_readlink (record w { errno = errno_save }) c t)
      else failed e

  unfoldable pub ask_link : Walk → Bytes → Bytes → Round
  ask_link w c t = on_link w c t (fs.readlink (join w.out c))

  -- What follows from getxattr(output, "user.iamroot.path-resolution", stack, p): the host refuses
  -- a value longer than p. The last byte of the value, its null byte, is not pushed.
  unfoldable pub on_attribute : Walk → Bytes → Bytes → Reply Bytes → Round
  on_attribute w c t (reply value) =
      if ltb (room t) (length value)
      then ask_link (record w { errno = errno_save }) c t
      else if length value == room t
      then failed enametoolong
      else if is_nil value
      then ask_link w c t
      else again (record w { rest = drop_last value ++ t })
  on_attribute w c t (refuse e) = ask_link (record w { errno = errno_save }) c t

  -- if (!follow_symlink(atflags)) goto skip_readlink;
  unfoldable pub examine : Walk → Bytes → Bytes → Round
  examine w c t =
      if follow
      then on_attribute w c t (fs.path_xattr (join w.out c))
      else again (skip_readlink w c t)

  -- The handling of .. in front of `examine`.
  unfoldable pub enter : Walk → Bytes → Bytes → Round
  enter w c t =
      if is_up c && leb (length w.out) (3 * w.nup)
      then again (record w { rest = skip_slashes t; out = join w.out c; nup = w.nup + 1 })
      else if is_up c && not w.check_dir
      then again (skip_readlink w c t)
      else examine w c t

  -- A separator is to be written in front of the component, and p is 0.
  abbrev pub no_room : Walk → Bool
  no_room w = not (is_nil w.out) && not (ends_in_slash w.out) && leb path_max (length w.rest)

  -- The body of the loop.
  unfoldable pub round : Walk → Round
  round w =
      let c = component w.rest in
      let t = after w.rest in
      if is_slash w.rest
      then again (restart w)
      else if is_nil c && not w.check_dir
      then finished w
      else if streq c (codes ".")
      then again (record w { rest = skip_slashes t })
      else if no_room w || leb path_max (length (join w.out c))
      then failed enametoolong
      else enter w c t

  unfoldable pub loop : ℕ → Walk → Outcome Walk
  loop zero w = out_of_fuel
  loop (suc f) w = proceed (loop f) (round w)

-- while(l>1 && stack[l-1]!='/') l--; if (l>1) l--;
parent : Bytes → Bytes
unfolding up_to_slash
parent cwd = let d = up_to_slash cwd in if leb (length d) 1 then take 1 cwd else drop_last d

-- The loop that cancels the initial .. components: the directory, and how much of the output of
-- length q is dropped.
cancel : ℕ → ℕ → Bytes → ℕ → Bytes × ℕ
unfolding parent
cancel q zero cwd p = (cwd, p)
cancel q (suc nup) cwd p = cancel q nup (parent cwd) (if ltb (p + 2) q then p + 3 else p + 2)

-- The directory with a slash, unless nothing follows or one is there.
with_slash : Bytes → Bytes → Bytes
with_slash cwd [] = cwd
with_slash cwd (c ∷ s) = if ends_in_slash cwd then cwd else cwd ++ slash ∷ []

below_cwd : Bytes × ℕ → Bytes → Outcome Bytes
unfolding with_slash
below_cwd (cwd, p) out =
    let name = with_slash cwd (drop p out) ++ drop p out in
    if leb path_max (length name + 1) then fail enametoolong else ok name

-- What follows the loop: a relative output is put below the working directory.
unfoldable pub finish : Fs → Walk → Outcome Bytes
unfolding cancel below_cwd
finish fs w = if is_slash w.out then ok w.out else elim (fs.getcwd) [
  | reply cwd ↦ below_cwd (cancel (length w.out) w.nup cwd 0) w.out
  | refuse e ↦ fail e
]

unfoldable pub finish_loop : Fs → Outcome Walk → Outcome Bytes
unfolding finish
finish_loop fs (ok w) = finish fs w
finish_loop fs (fail e) = fail e
finish_loop fs overrun = overrun
finish_loop fs out_of_fuel = out_of_fuel

abbrev pub start : Bytes → ℕ → Walk
start path errno_save = record {
  rest = path;
  out = [];
  nup = 0;
  cnt = 0;
  check_dir = false;
  errno = errno_save;
}

-- Rounds between two followed links: two for each byte that remains, and the last ones.
abbrev pub rounds_per_link : ℕ
rounds_per_link = 2 * path_max + 2

-- Enough rounds for every path name, where no path-resolution attribute is set.
unfoldable pub fuel : ℕ
fuel = (symloop_max + 1) * rounds_per_link

-- __realpathat(filename, resolved, atflags), with the rounds that it may take.
unfoldable pub realpathat : ℕ → Fs → Bytes → Bool → ℕ → Bytes → Outcome Bytes
unfolding loop proceed round restart enter examine on_attribute ask_link on_link push_link rooted
    skip_readlink finish_loop streq skip_slashes component after pop join
realpathat rounds fs root follow errno_save path =
    let result = finish_loop fs (loop fs root follow errno_save rounds (start path errno_save)) in
    if is_nil path
    then fail enoent
    else if leb path_max (length path)
    then fail enametoolong
    else result

-- A path name that comes back is what the loop and its last part gave.
pub realpathat-ok :
    (rounds : ℕ) (fs : Fs) (root : Bytes) (follow : Bool) (errno_save : ℕ) (path out : Bytes)
    → realpathat rounds fs root follow errno_save path ≡ ok out
    → finish_loop fs (loop fs root follow errno_save rounds (start path errno_save)) ≡ ok out
unfolding realpathat
realpathat-ok rounds fs root follow errno_save path out e = elim (Bool-cases (is_nil path)) [
  | inl n ↦ cc (rw n at e)
  | inr n ↦ elim (Bool-cases (leb path_max (length path))) [
    | inl long ↦ cc (rw (n, long) at e)
    | inr short ↦ rw (n, short) at e
  ]
]
