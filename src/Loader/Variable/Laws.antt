-- ===== src/Loader/Variable/Laws.antt =====
-- The names of the environment variables of the loader, and the default library path.
use iamroot.Base.{
  ℕ, suc, ◌<◌, ◌≡◌, ◌≢◌, refl, ap, subst, sym, Bool, true, false, ◌&&◌, List, [], ◌∷◌, leb, ltb,
  inl, inr, Bool-cases, none, some, length, arith,
}
use iamroot.Base.Bytes.{Bytes, codes, name_max}
use iamroot.Base.Errno.{Reply, reply, refuse, enospc}
use iamroot.Env.{setenv}
use iamroot.Env.Laws.{getenv-setenv}
use iamroot.Loader.{Target}
use iamroot.Loader.Machine.{machine, multiarch}
use iamroot.Loader.Variable.{
  to_upper, sanitize_byte, env_sanitize, variable_name, sanitized, getvariable, or_else, deflib_of,
  getdeflib,
}

-- No byte is a dash or a lower-case letter.
abbrev pub AllUpper : Bytes → Type 0
AllUpper [] = Unit
AllUpper (c ∷ s) = (c ≢ 45) × ((leb 97 c && leb c 122) ≡ false) × AllUpper s

sanitize_byte-not_dash : (c : ℕ) → sanitize_byte true c ≢ 45
unfolding sanitize_byte to_upper
sanitize_byte-not_dash c = ground arith

sanitize_byte-upper :
    (c : ℕ) → (leb 97 (sanitize_byte true c) && leb (sanitize_byte true c) 122) ≡ false
unfolding sanitize_byte to_upper
sanitize_byte-upper c = ground arith

env_sanitize-AllUpper : (s : Bytes) → AllUpper (env_sanitize s true)
unfolding env_sanitize
env_sanitize-AllUpper [] = tt
env_sanitize-AllUpper (c ∷ s) =
    (sanitize_byte-not_dash c, sanitize_byte-upper c, env_sanitize-AllUpper s)

length-env_sanitize : (s : Bytes) (upper : Bool) → length (env_sanitize s upper) ≡ length s
unfolding env_sanitize
length-env_sanitize [] upper = refl
length-env_sanitize (c ∷ s) upper = ap suc (length-env_sanitize s upper)

-- The name of a variable that __getvariable leaves in a buffer of bufsiz bytes is shorter than
-- bufsiz, and has neither a dash nor a lower-case letter.
pub getvariable-AllUpper :
    (t : Target) (name : Bytes) (bufsiz : ℕ) (v : Bytes)
    → getvariable t name bufsiz ≡ reply v
    → (length v < bufsiz) × AllUpper v
unfolding getvariable sanitized
getvariable-AllUpper t name bufsiz v h = elim (Bool-cases (ltb (length text) bufsiz)) [
  | inl e ↦
      subst (λ w. (length w < bufsiz) × AllUpper w) (payload (rw e at h))
        (
          subst (λ n. n < bufsiz) (sym (length-env_sanitize text true)) (ground arith),
          env_sanitize-AllUpper text,
        )
  | inr e ↦ absurd (too_long (rw e at h))
]
  where
    text : Bytes
    text = variable_name name (machine t) t.ldso t.abi

    payload : reply (env_sanitize text true) ≡ reply v → env_sanitize text true ≡ v
    payload k = cc k

    too_long : ◌≢◌ {A = Reply Bytes} (refuse enospc) (reply v)
    too_long k = cc k

-- A program sets the variable that __getvariable names for IAMROOT_DEFLIB, and the setenv does not
-- fail: then __getdeflib gives the value, unless the machine has directories of a multiarch system.
pub getdeflib-setenv :
    (wanted : Bool) (t : Target) (v value : Bytes) (before after : List Bytes)
    → multiarch wanted t ≡ none
    → getvariable t (codes "IAMROOT_DEFLIB") name_max ≡ reply v
    → setenv v value true before ≡ reply after
    → getdeflib wanted after t ≡ some value
unfolding getdeflib or_else deflib_of
getdeflib-setenv wanted t v value before after m g s =
    rw (m, g) (rw ((getenv-setenv v value v before after s).0) refl)
