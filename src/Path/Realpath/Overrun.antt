-- ===== src/Path/Realpath/Overrun.antt =====
-- Where `__realpathat` writes past the free part of its stack: it checks the length of a link
-- before it puts the root directory in front of it.
use iamroot.Base.{
  ℕ, zero, suc, ◌+◌, ◌<◌, ◌≡◌, refl, ◌≢◌, Bool, true, false, [], ◌∷◌, arith, leb, if◌then◌else◌,
  length, length-append, take,
}
use iamroot.Base.Bytes.{Bytes, codes, slash, path_max, streq}
use iamroot.Base.Errno.{Reply, reply, refuse}
use iamroot.Path.Text.{component, after, is_slash, is_nil, join, piece}
use iamroot.Path.Canonical.{IsName}
use iamroot.Path.Fs.{Fs}
use iamroot.Path.Realpath.{
  Outcome, ok, fail, overrun, out_of_fuel, Walk, Round, again, finished, failed, overran, restart,
  room, rooted, proceed, push_link, on_link, ask_link, on_attribute, examine, enter, round, loop,
  finish_loop, finish, realpathat, start,
}
use iamroot.Path.Realpath.Cycle.{component_self, after_self, is_slash_self, skip_slashes_self}

abbrev Safe : Round → Type 0
Safe overran = ⊥
Safe _ = Unit

-- Out of a chroot.
module _ (fs : Fs) (root : Bytes) (follow : Bool) (errno_save : ℕ)
    (outside : streq root (codes "/") ≡ true) where
  push_link-Safe :
      (w : Walk) (t link : Bytes)
      → length link < room t
      → Safe (push_link fs root follow errno_save w t link)
  unfolding push_link rooted
  push_link-Safe w t link h = ground arith

  on_link-Safe :
      (w : Walk) (c t : Bytes) (r : Reply Bytes) → Safe (on_link fs root follow errno_save w c t r)
  unfolding on_link
  on_link-Safe w c t (reply link) = ground (arith, push_link-Safe w t link)
  on_link-Safe w c t (refuse e) = ground arith

  on_attribute-Safe :
      (w : Walk) (c t : Bytes) (r : Reply Bytes)
      → Safe (on_attribute fs root follow errno_save w c t r)
  unfolding on_attribute ask_link
  on_attribute-Safe w c t (reply value) = ground (
    arith,
    on_link-Safe w c t (fs.readlink (join w.out c)),
    on_link-Safe (record w { errno = errno_save }) c t (fs.readlink (join w.out c)),
  )
  on_attribute-Safe w c t (refuse e) =
      on_link-Safe (record w { errno = errno_save }) c t (fs.readlink (join w.out c))

  round-Safe : (w : Walk) → Safe (round fs root follow errno_save w)
  unfolding round enter examine
  round-Safe w =
      let c = component w.rest in
      let t = after w.rest in ground (arith, on_attribute-Safe w c t (fs.path_xattr (join w.out c)))

  proceed-Safe :
      (r : Round) (next : Walk → Outcome Walk)
      → Safe r
      → ((w : Walk) → next w ≢ overrun)
      → proceed next r ≢ overrun
  unfolding proceed
  proceed-Safe (again w) next h k = k w
  proceed-Safe (finished w) next h k = λ e. cc e
  proceed-Safe (failed n) next h k = λ e. cc e
  proceed-Safe overran next h k = absurd h

  loop-Safe : (f : ℕ) (w : Walk) → loop fs root follow errno_save f w ≢ overrun
  unfolding loop
  loop-Safe zero w = λ e. cc e
  loop-Safe (suc f) w =
      proceed-Safe (round fs root follow errno_save w) (loop fs root follow errno_save f)
        (round-Safe w) (loop-Safe f)

finish_loop-Safe : (fs : Fs) (r : Outcome Walk) → r ≢ overrun → finish_loop fs r ≢ overrun
unfolding finish_loop finish
finish_loop-Safe fs (ok w) h = ground arith
finish_loop-Safe fs (fail e) h = λ e. cc e
finish_loop-Safe fs overrun h = absurd (h refl)
finish_loop-Safe fs out_of_fuel h = λ e. cc e

-- Out of a chroot, where the root directory is /, no write passes the free part of the stack,
-- whatever the path name and the links are.
pub realpathat-safe :
    (rounds : ℕ) (fs : Fs) (root : Bytes) (follow : Bool) (errno_save : ℕ) (path : Bytes)
    → root ≡ codes "/"
    → realpathat rounds fs root follow errno_save path ≢ overrun
unfolding realpathat
realpathat-safe rounds fs root follow errno_save path outside = if_safe (is_nil path) _ _ (
    if_safe (leb path_max (length path)) _ _ (
      finish_loop-Safe fs _
        (loop-Safe fs root follow errno_save (rw outside refl) rounds (start path errno_save))))
  where
    if_safe :
        (b : Bool) (e : ℕ) (r : Outcome Bytes) → r ≢ overrun → (if b then fail e else r) ≢ overrun
    if_safe true e r h = λ p. cc p
    if_safe false e r h = h

-- In a chroot: /c is a link to an absolute path name that is shorter than the stack, but not with
-- the root directory in front of it. Then the move of the link and the root directory overruns.
module _ (fs : Fs) (root link : Bytes) (errno_save : ℕ) (c : Bytes) (n : ℕ) (name : IsName c)
    (inside : streq root (codes "/") ≡ false) (absolute : is_slash link ≡ true)
    (short : length c + 2 < path_max) (fits : length link < path_max)
    (long : path_max < length (take path_max root) + length link)
    (no_attribute : fs.path_xattr (slash ∷ c) ≡ refuse n)
    (linked : fs.readlink (slash ∷ c) ≡ reply link) where
  abbrev at : Bytes → Bytes → Walk
  at rest out = record {
    rest = rest;
    out = out;
    nup = 0;
    cnt = 0;
    check_dir = false;
    errno = errno_save;
  }

  round-restart : round fs root true errno_save (at (slash ∷ c) []) ≡ again (at c (slash ∷ []))
  unfolding round restart
  round-restart = rw (is_slash_self c name.no_slash, skip_slashes_self c name.no_slash)

  on_link-overran : on_link fs root true errno_save (at c (slash ∷ [])) c [] (reply link) ≡ overran
  unfolding on_link push_link rooted
  on_link-overran = ground (arith, length-append (take path_max root) link)

  enter-overran : enter fs root true errno_save (at c (slash ∷ [])) c [] ≡ overran
  unfolding enter examine on_attribute ask_link join piece
  enter-overran = rw (name.not_up, no_attribute, linked) on_link-overran

  round-overran : round fs root true errno_save (at c (slash ∷ [])) ≡ overran
  unfolding round join piece
  round-overran =
      rw
        (
          component_self c name.no_slash,
          after_self c name.no_slash,
          is_slash_self c name.no_slash,
          name.not_nil,
          name.not_dot,
        )
        (ground (arith, enter-overran))

  loop-overruns :
      (f : ℕ) → loop fs root true errno_save (suc (suc f)) (start (slash ∷ c) errno_save) ≡ overrun
  unfolding loop proceed
  loop-overruns f = rw (round-restart, round-overran)

-- In a chroot, a link /c to an absolute path name of fewer than PATH_MAX bytes makes the function
-- overrun its stack as soon as the link and the root directory together are longer than PATH_MAX.
pub realpathat-overruns :
    (fs : Fs) (root link : Bytes) (errno_save : ℕ) (c : Bytes) (n rounds : ℕ)
    → IsName c
    → length c + 2 < path_max
    → streq root (codes "/") ≡ false
    → is_slash link ≡ true
    → length link < path_max
    → path_max < length (take path_max root) + length link
    → fs.path_xattr (slash ∷ c) ≡ refuse n
    → fs.readlink (slash ∷ c) ≡ reply link
    → realpathat (suc (suc rounds)) fs root true errno_save (slash ∷ c) ≡ overrun
unfolding realpathat
realpathat-overruns fs root link errno_save c n rounds name short inside absolute fits long
      no_attribute linked =
    rw
      (
        short-leb,
        loop-overruns fs root link errno_save c n name inside absolute short fits long no_attribute
            linked rounds,
      )
      refl
  where
    short-leb : leb path_max (suc (length c)) ≡ false
    short-leb = ground arith
