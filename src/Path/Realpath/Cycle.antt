-- ===== src/Path/Realpath/Cycle.antt =====
-- A path-resolution attribute that leads back to its own file: such a turn is not counted among the
-- links that `__realpathat` follows.
use iamroot.Base.{
  ℕ, zero, suc, ◌+◌, ◌<◌, ◌≡◌, refl, ◌∙◌, true, false, [], ◌∷◌, ◌++◌, arith, leb, length,
  append-nil, drop_last-snoc, length-append, drop_last,
}
use iamroot.Base.Bytes.{Bytes, slash, path_max}
use iamroot.Base.Errno.{reply}
use iamroot.Path.Text.{skip_slashes, component, after, is_slash, join, piece, NoSlash}
use iamroot.Path.Canonical.{IsName}
use iamroot.Path.Fs.{Fs}
use iamroot.Path.Realpath.{
  out_of_fuel, Walk, again, restart, proceed, on_attribute, examine, enter, round, loop, realpathat,
}

pub component_self : (c : Bytes) → NoSlash c → component c ≡ c
unfolding component
component_self [] h = refl
component_self (x ∷ c) h = rw (component_self c h.1) (rw h.0)

pub after_self : (c : Bytes) → NoSlash c → after c ≡ []
unfolding after
after_self [] h = refl
after_self (x ∷ c) h = rw h.0 (after_self c h.1)

pub is_slash_self : (c : Bytes) → NoSlash c → is_slash c ≡ false
is_slash_self [] h = refl
is_slash_self (x ∷ c) h = h.0

pub skip_slashes_self : (c : Bytes) → NoSlash c → skip_slashes c ≡ c
unfolding skip_slashes
skip_slashes_self [] h = refl
skip_slashes_self (x ∷ c) h = rw h.0

module _ (fs : Fs) (root : Bytes) (errno_save : ℕ) (c : Bytes) (name : IsName c)
    (short : length c + 2 < path_max)
    (back : fs.path_xattr (slash ∷ c) ≡ reply (slash ∷ c ++ 0 ∷ [])) where
  abbrev at : Bytes → Bytes → Walk
  at rest out = record {
    rest = rest;
    out = out;
    nup = 0;
    cnt = 0;
    check_dir = false;
    errno = errno_save;
  }

  round-restart :
      (out : Bytes) → round fs root true errno_save (at (slash ∷ c) out) ≡ again (at c (slash ∷ []))
  unfolding round restart
  round-restart out = rw (is_slash_self c name.no_slash, skip_slashes_self c name.no_slash)

  value-pushed : drop_last (slash ∷ c ++ 0 ∷ []) ++ [] ≡ slash ∷ c
  value-pushed = append-nil _ ∙ drop_last-snoc (slash ∷ c) 0

  on_attribute-turns :
      on_attribute fs root true errno_save (at c (slash ∷ [])) c [] (reply (slash ∷ c ++ 0 ∷ []))
      ≡ again (at (slash ∷ c) (slash ∷ []))
  unfolding on_attribute
  on_attribute-turns = rw value-pushed (ground (arith, length-append c (0 ∷ [])))

  enter-turns :
      enter fs root true errno_save (at c (slash ∷ [])) c [] ≡ again (at (slash ∷ c) (slash ∷ []))
  unfolding enter examine join piece
  enter-turns = rw (name.not_up, back) on_attribute-turns

  round-turns :
      round fs root true errno_save (at c (slash ∷ [])) ≡ again (at (slash ∷ c) (slash ∷ []))
  unfolding round join piece
  round-turns =
      rw
        (
          component_self c name.no_slash,
          after_self c name.no_slash,
          is_slash_self c name.no_slash,
          name.not_nil,
          name.not_dot,
        )
        (ground (arith, enter-turns))

  loop-turns :
      (f : ℕ) (out : Bytes) → loop fs root true errno_save f (at (slash ∷ c) out) ≡ out_of_fuel
  unfolding loop proceed
  loop-turns zero out = refl
  loop-turns (suc zero) out = rw (round-restart out)
  loop-turns (suc (suc f)) out = rw (round-restart out, round-turns) (loop-turns f (slash ∷ []))

-- The file /c has the attribute, and its value is /c again: __realpathat uses up any number of
-- rounds, since only the links that it reads count towards SYMLOOP_MAX.
pub realpathat-turns :
    (fs : Fs) (root : Bytes) (errno_save : ℕ) (c : Bytes) (rounds : ℕ)
    → IsName c
    → length c + 2 < path_max
    → fs.path_xattr (slash ∷ c) ≡ reply (slash ∷ c ++ 0 ∷ [])
    → realpathat rounds fs root true errno_save (slash ∷ c) ≡ out_of_fuel
unfolding realpathat
realpathat-turns fs root errno_save c rounds name short back =
    rw (short-leb, loop-turns fs root errno_save c name short back rounds []) refl
  where
    short-leb : leb path_max (suc (length c)) ≡ false
    short-leb = ground arith
