-- ===== src/Path/Realpath/Tests.antt =====
-- Runs of `__realpathat` on a small file system, and the theorems about it at concrete inputs.
use iamroot.Base.{
  ℕ, ◌≡◌, refl, ◌≢◌, true, false, [], ◌∷◌, ◌++◌, ◌<◌, arith, zero, suc, length, if◌then◌else◌,
}
use iamroot.Base.Bytes.{Bytes, codes, streq}
use iamroot.Base.Errno.{Reply, reply, refuse, enoent, einval, eloop}
use iamroot.Path.Fs.{Fs}
use iamroot.Path.Realpath.{ok, fail, overrun, out_of_fuel, fuel, realpathat}
use iamroot.Path.Canonical.{IsName}
use iamroot.Path.Realpath.Ends.{NoAttribute, realpathat-ends}
use iamroot.Path.Realpath.Fits.{realpathat-fits}
use iamroot.Path.Realpath.Cycle.{realpathat-turns}
use iamroot.Path.Realpath.Overrun.{realpathat-safe, realpathat-overruns}

-- /srv/r is a root directory with the links /bin (to usr/bin), /abs (to /etc) and /loop (to loop).
links : Bytes → Reply Bytes
links p =
    if streq p (codes "/srv/r/bin")
    then reply (codes "usr/bin")
    else if streq p (codes "/srv/r/abs")
    then reply (codes "/etc/")
    else if streq p (codes "/srv/r/loop")
    then reply (codes "loop")
    else refuse einval

unfoldable pub sample : Fs
unfolding links
sample = record {
  readlink = links;
  path_xattr = λ p. refuse 61;
  getcwd = reply (codes "/srv/r/home");
  fd_link = λ fd. refuse enoent;
  ignore = λ p. false;
}

relative_link :
    realpathat fuel sample (codes "/srv/r") true 0 (codes "/srv/r/bin/sh")
    ≡ ok (codes "/srv/r/usr/bin/sh")
unfolding realpathat sample fuel
relative_link = refl

absolute_link :
    realpathat fuel sample (codes "/srv/r") true 0 (codes "/srv/r/abs/passwd")
    ≡ ok (codes "/srv/r/etc/passwd")
unfolding realpathat sample fuel
absolute_link = refl

relative_path :
    realpathat fuel sample (codes "/srv/r") true 0 (codes "../x/.//y/..") ≡ ok (codes "/srv/r/x")
unfolding realpathat sample fuel
relative_path = refl

link_loop : realpathat fuel sample (codes "/srv/r") true 0 (codes "/srv/r/loop") ≡ fail eloop
unfolding realpathat sample fuel
link_loop = refl

dotdot : realpathat fuel sample (codes "/srv/r") true 0 (codes "/srv/r/../x/") ≡ ok (codes "/srv/x")
unfolding realpathat sample fuel
dotdot = refl

sample-NoAttribute : NoAttribute sample
unfolding sample
sample-NoAttribute p = (61, refl)

realpathat-ends_example :
    realpathat fuel sample (codes "/srv/r") true 0 (codes "/srv/r/loop") ≢ out_of_fuel
realpathat-ends_example =
    realpathat-ends sample (codes "/srv/r") true 0 (codes "/srv/r/loop") sample-NoAttribute

realpathat-fits_example : length (codes "/srv/r/usr/bin/sh") < 4096
unfolding realpathat sample fuel
realpathat-fits_example =
    realpathat-fits fuel sample (codes "/srv/r") true 0 (codes "/srv/r/bin/sh")
      (codes "/srv/r/usr/bin/sh") refl

a-IsName : IsName (codes "a")
unfolding streq
a-IsName = record { no_slash = (refl, tt); not_nil = refl; not_dot = refl; not_up = refl }

-- The file /a has the attribute, with the value /a.
abbrev turning : Fs
turning = record {
  readlink = λ p. refuse einval;
  path_xattr = λ p. reply (codes "/a" ++ 0 ∷ []);
  getcwd = reply (codes "/");
  fd_link = λ fd. refuse enoent;
  ignore = λ p. false;
}

realpathat-turns_example : realpathat fuel turning (codes "/") true 0 (codes "/a") ≡ out_of_fuel
realpathat-turns_example =
    realpathat-turns turning (codes "/") 0 (codes "a") fuel a-IsName (omega arith) refl

realpathat-safe_example : realpathat fuel sample (codes "/") true 0 (codes "/srv/r/abs") ≢ overrun
realpathat-safe_example = realpathat-safe fuel sample (codes "/") true 0 (codes "/srv/r/abs") refl

abbrev repeat : ℕ → Bytes
repeat zero = []
repeat (suc n) = 97 ∷ repeat n

-- The file /a is a link of 4001 bytes.
abbrev long_link : Fs
long_link = record {
  readlink = λ p. reply (47 ∷ repeat 4000);
  path_xattr = λ p. refuse 61;
  getcwd = reply (codes "/");
  fd_link = λ fd. refuse enoent;
  ignore = λ p. false;
}

realpathat-overruns_example : realpathat 2 long_link (47 ∷ repeat 200) true 0 (codes "/a") ≡ overrun
unfolding streq
realpathat-overruns_example =
    realpathat-overruns long_link (47 ∷ repeat 200) (47 ∷ repeat 4000) 0 (codes "a") 61 0 a-IsName
      (omega arith) refl refl (omega arith) (omega arith) refl refl
