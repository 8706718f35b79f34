-- ===== src/Path/Realpath/Fits.antt =====
-- The output of `__realpathat` fits its buffer of PATH_MAX bytes.
use iamroot.Base.{ℕ, zero, suc, ◌≤◌, ◌<◌, ◌≡◌, refl, Bool, [], ◌∷◌, arith, length, drop_last}
use iamroot.Base.Bytes.{Bytes, path_max}
use iamroot.Base.Errno.{Reply, reply, refuse, enoent}
use iamroot.Path.Text.{component, after, up_to_slash, pop, drop_separator, join}
use iamroot.Path.Fs.{Fs}
use iamroot.Path.Realpath.{
  Outcome, ok, fail, overrun, out_of_fuel, Walk, Round, again, finished, failed, overran, restart,
  skip_readlink, proceed, push_link, on_link, ask_link, on_attribute, examine, enter, round, loop,
  finish_loop, finish, realpathat, realpathat-ok, start,
}

abbrev Fits : Bytes → Type 0
Fits s = length s < path_max

length-init_from : (x : ℕ) (s : Bytes) → length (drop_last (x ∷ s)) ≤ length s
length-init_from x [] = omega arith
length-init_from x (y ∷ s) = omega (arith, length-init_from y s)

length-drop_last-le : (s : Bytes) → length (drop_last s) ≤ length s
length-drop_last-le [] = omega arith
length-drop_last-le (x ∷ s) = omega (arith, length-init_from x s)

length-up_to_slash-le : (s : Bytes) → length (up_to_slash s) ≤ length s
unfolding up_to_slash
length-up_to_slash-le [] = omega arith
length-up_to_slash-le (x ∷ s) = ground (arith, length-up_to_slash-le s)

pop-Fits : (s : Bytes) → Fits s → Fits (pop s)
unfolding pop drop_separator
pop-Fits s h = ground (arith, length-up_to_slash-le s, length-drop_last-le (up_to_slash s))

abbrev Keeps : Round → Type 0
Keeps (again w) = Fits w.out
Keeps (finished w) = Fits w.out
Keeps _ = Unit

module _ (w : Walk) (c t : Bytes) (h : Fits w.out) (k : Fits (join w.out c)) where
  skip_readlink-Fits : Fits (skip_readlink w c t).out
  unfolding skip_readlink
  skip_readlink-Fits = ground (arith, pop-Fits w.out h)

  module _ (fs : Fs) (root : Bytes) (follow : Bool) (errno_save : ℕ) where
    push_link-Fits : (link : Bytes) → Keeps (push_link fs root follow errno_save w t link)
    unfolding push_link
    push_link-Fits link = ground arith

module _ (fs : Fs) (root : Bytes) (follow : Bool) (errno_save : ℕ) where
  on_link-Fits :
      (w : Walk) (c t : Bytes) (r : Reply Bytes)
      → Fits w.out
      → Fits (join w.out c)
      → Keeps (on_link fs root follow errno_save w c t r)
  unfolding on_link
  on_link-Fits w c t (reply link) h k =
      ground (
        arith,
        skip_readlink-Fits w c t h k,
        push_link-Fits w c t h k fs root follow errno_save link,
      )
  on_link-Fits w c t (refuse e) h k = ground (
    arith,
    skip_readlink-Fits (record w { errno = enoent }) c t h k,
    skip_readlink-Fits (record w { errno = errno_save }) c t h k,
  )

  on_attribute-Fits :
      (w : Walk) (c t : Bytes) (r : Reply Bytes)
      → Fits w.out
      → Fits (join w.out c)
      → Keeps (on_attribute fs root follow errno_save w c t r)
  unfolding on_attribute ask_link
  on_attribute-Fits w c t (reply value) h k = ground (
    arith,
    on_link-Fits w c t (fs.readlink (join w.out c)) h k,
    on_link-Fits (record w { errno = errno_save }) c t (fs.readlink (join w.out c)) h k,
  )
  on_attribute-Fits w c t (refuse e) h k =
      on_link-Fits (record w { errno = errno_save }) c t (fs.readlink (join w.out c)) h k

  enter-Fits :
      (w : Walk) (c t : Bytes)
      → Fits w.out
      → Fits (join w.out c)
      → Keeps (enter fs root follow errno_save w c t)
  unfolding enter examine
  enter-Fits w c t h k = ground (
    arith,
    skip_readlink-Fits w c t h k,
    on_attribute-Fits w c t (fs.path_xattr (join w.out c)) h k,
  )

  restart-Fits : (w : Walk) → Fits (restart w).out
  unfolding restart
  restart-Fits w = ground arith

  round-Fits : (w : Walk) → Fits w.out → Keeps (round fs root follow errno_save w)
  unfolding round
  round-Fits w h = ground (arith, restart-Fits w, enter-Fits w (component w.rest) (after w.rest) h)

  proceed-Fits :
      (r : Round) (next : Walk → Outcome Walk) (w' : Walk)
      → Keeps r
      → ((w : Walk) → Fits w.out → next w ≡ ok w' → Fits w'.out)
      → proceed next r ≡ ok w'
      → Fits w'.out
  unfolding proceed
  proceed-Fits (again w) next w' h k e = k w h e
  proceed-Fits (finished w) next w' h k e = ground arith
  proceed-Fits (failed n) next w' h k e = cc
  proceed-Fits overran next w' h k e = cc

  loop-Fits :
      (f : ℕ) (w w' : Walk) → Fits w.out → loop fs root follow errno_save f w ≡ ok w' → Fits w'.out
  unfolding loop
  loop-Fits zero w w' h e = cc
  loop-Fits (suc f) w w' h e =
      proceed-Fits (round fs root follow errno_save w) (loop fs root follow errno_save f) w'
        (round-Fits w h) (λ v k. loop-Fits f v w' k) e

finish_loop-Fits :
    (fs : Fs) (r : Outcome Walk) {out : Bytes}
    → ((w : Walk) → r ≡ ok w → Fits w.out)
    → finish_loop fs r ≡ ok out
    → Fits out
unfolding finish_loop finish
finish_loop-Fits fs (ok w) h e = ground (arith, h w refl)
finish_loop-Fits fs (fail n) h e = cc
finish_loop-Fits fs overrun h e = cc
finish_loop-Fits fs out_of_fuel h e = cc

-- The path name that comes back is shorter than PATH_MAX, for every path name and every answer of
-- the host: with its null byte it fits the buffer `resolved` of PATH_MAX bytes.
pub realpathat-fits :
    (rounds : ℕ) (fs : Fs) (root : Bytes) (follow : Bool) (errno_save : ℕ) (path out : Bytes)
    → realpathat rounds fs root follow errno_save path ≡ ok out
    → length out < path_max
realpathat-fits rounds fs root follow errno_save path out e =
    finish_loop-Fits fs (loop fs root follow errno_save rounds (start path errno_save))
      (λ w. loop-Fits fs root follow errno_save rounds (start path errno_save) w (omega arith))
      (realpathat-ok rounds fs root follow errno_save path out e)
