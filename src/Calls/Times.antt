-- ===== src/Calls/Times.antt =====
-- utimes.c, utime.c, lutimes.c and futimesat.c.
use iamroot.Base.{ℕ, ◌*◌, Option, none, some, leb, ◌||◌, if◌then◌else◌}
use iamroot.Base.Bytes.{Bytes}
use iamroot.Base.Errno.{einval}
use iamroot.Path.Resolution.{Dirfd, cwd, at_none, at_nofollow, pr_none}
use iamroot.Calls.{Host, Proc, Ran, back, next_utimes, resolve2, call}
use iamroot.Calls.Files.{utimensat}

-- struct timeval, of a number of microseconds that is not negative
pub record Timeval : Type 0 where
  pub tv_sec : ℕ
  pub tv_usec : ℕ

-- Two of struct timespec
pub record Timespecs : Type 0 where
  pub access_sec : ℕ
  pub access_nsec : ℕ
  pub change_sec : ℕ
  pub change_nsec : ℕ

-- ts, of times
unfoldable pub in_nanoseconds : Timeval → Timeval → Timespecs
in_nanoseconds access change = record {
  access_sec = access.tv_sec;
  access_nsec = access.tv_usec * 1000;
  change_sec = change.tv_sec;
  change_nsec = change.tv_usec * 1000;
}

-- The functions are given a code of times for utimensat, whose times are one number.
module _ (rounds : ℕ) (h : Host) (code : Option Timespecs → ℕ) where
  unfoldable pub utimes : Option Bytes → ℕ → Proc → Ran ℕ
  utimes path times p =
      resolve2 rounds h p cwd path at_nofollow pr_none λ buf. call h p (next_utimes buf times)

  -- actime and modtime
  unfoldable pub utime : Option Bytes → Option (ℕ × ℕ) → Proc → Ran ℕ
  utime path none p = utimensat rounds h cwd path (code none) at_none p
  utime path (some (actime, modtime)) p =
      utimensat rounds h cwd path
        (code (
          some (record {
            access_sec = actime;
            access_nsec = 0;
            change_sec = modtime;
            change_nsec = 0;
          })))
        at_none p

  unfoldable pub lutimes : Option Bytes → Option (Timeval × Timeval) → Proc → Ran ℕ
  lutimes path none p = utimensat rounds h cwd path (code none) at_nofollow p
  lutimes path (some (access, change)) p =
      utimensat rounds h cwd path (code (some (in_nanoseconds access change))) at_nofollow p

  unfoldable pub futimesat : Dirfd → Option Bytes → Option (Timeval × Timeval) → Proc → Ran ℕ
  futimesat dfd path none p = utimensat rounds h dfd path (code none) at_none p
  futimesat dfd path (some (access, change)) p =
      if leb 1000000 access.tv_usec || leb 1000000 change.tv_usec
      then back none (record p { errno = einval })
      else utimensat rounds h dfd path (code (some (in_nanoseconds access change))) at_none p
