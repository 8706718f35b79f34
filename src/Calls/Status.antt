-- ===== src/Calls/Status.antt =====
-- lstat.c, fstatat.c and stat.c: what was recorded takes the place of what the host says.
pub mod Shown
use iamroot.Base.{ℕ, Option, none, some, if◌then◌else◌, ◌==◌}
use iamroot.Base.Bytes.{Bytes}
use iamroot.Base.Errno.{Reply, reply, refuse}
use iamroot.Base.Bits.{bit_and, bit_or}
use iamroot.Path.Resolution.{Dirfd, cwd, AtFlags, at_none, at_nofollow, pr_none, pr_nowalkalong}
use iamroot.Calls.{
  Host, Proc, Ran, back, Stat, Attribute, mode_attribute, uid_attribute, gid_attribute, unset,
  get_attribute, resolve2,
}

abbrev pub s_ifmt : ℕ
s_ifmt = 61440

-- __st_mode(path, statbuf), of the recorded mode
unfoldable pub shown_mode : ℕ → ℕ → ℕ
shown_mode m st = if m == unset then st else bit_or (bit_and st s_ifmt) m

-- __st_uid(path, statbuf) and __st_gid(path, statbuf), of the recorded owner or group
unfoldable pub shown_id : ℕ → ℕ
shown_id id = if id == unset then 0 else id

-- if (uid == (uid_t)-1) statbuf->st_uid = 0;
unfoldable pub zero_unless : ℕ → ℕ → ℕ
zero_unless id st = if id == unset then 0 else st

module _ (h : Host) where
  -- __st_mode(buf, statbuf); __st_uid(buf, statbuf); __st_gid(buf, statbuf);
  unfoldable pub show : Bytes → Proc → Stat → Stat
  show buf p st = record {
    st_mode = shown_mode (get_attribute h mode_attribute buf p) st.st_mode;
    st_uid = shown_id (get_attribute h uid_attribute buf p);
    st_gid = shown_id (get_attribute h gid_attribute buf p);
  }

  unfoldable pub on_fstatat : Bytes → Proc → Reply Stat → Ran Stat
  on_fstatat buf p (reply st) = back (some (show buf p st)) p
  on_fstatat buf p (refuse e) = back none (record p { errno = e })

  unfoldable pub on_lstat : Bytes → Proc → Reply Stat → Ran Stat
  on_lstat buf p (reply st) =
      let uid = get_attribute h uid_attribute buf p in
      let gid = get_attribute h gid_attribute buf p in
      let st = record st {
        st_uid = zero_unless uid st.st_uid;
        st_gid = zero_unless gid st.st_gid;
      } in
      back (some (show buf p st)) p
  on_lstat buf p (refuse e) = back none (record p { errno = e })

module _ (rounds : ℕ) (h : Host) where
  unfoldable pub lstat : Option Bytes → Proc → Ran Stat
  lstat path p =
      resolve2 rounds h p cwd path at_nofollow pr_nowalkalong
        λ buf. on_lstat h buf p (h.lstat p.log buf)

  unfoldable pub fstatat : Dirfd → Option Bytes → AtFlags → Proc → Ran Stat
  fstatat dfd path atflags p =
      resolve2 rounds h p dfd path atflags pr_none
        λ buf. on_fstatat h buf p (h.fstatat p.log dfd buf atflags)

  unfoldable pub stat : Option Bytes → Proc → Ran Stat
  stat path p = fstatat cwd path at_none p
