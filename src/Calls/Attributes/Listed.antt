-- ===== src/Calls/Attributes/Listed.antt =====
-- listxattr.c, llistxattr.c and flistxattr.c: the names of the attributes, without the prefix. What is
-- written into the buffer of the caller is given, whose size no function looks at; null bytes end
-- the names.
use iamroot.Base.{ℕ, List, [], ◌∷◌, ◌++◌, Option, some, if◌then◌else◌, length, drop}
use iamroot.Base.Bytes.{Bytes, strneq}
use iamroot.Path.Text.{is_nil}
use iamroot.Path.Resolution.{Dirfd, cwd, at_none, at_nofollow, pr_none, pr_nowalkalong}
use iamroot.Calls.{
  Host, Proc, Ran, back, Call, next_listxattr, next_llistxattr, next_flistxattr, on_success, settle,
  resolve2, resolve_fd,
}
use iamroot.Calls.Attributes.{xattrs_prefix}

-- &xbuf[i+off]
unfoldable pub without_prefix : Bytes → Bytes
without_prefix name = if strneq name xattrs_prefix then drop (length xattrs_prefix) name else name

-- The loop over the names; one that is the prefix alone leaves nothing.
unfoldable pub strip_names : List Bytes → Bytes
strip_names [] = []
strip_names (name ∷ names) =
    let rest = strip_names names in
    if is_nil name
    then []
    else if is_nil (without_prefix name)
    then rest
    else without_prefix name ++ 0 ∷ rest

unfoldable pub on_listing : Ran (List Bytes) → Ran Bytes
on_listing r = on_success (λ names p. back (some (strip_names names)) p) r

module _ (rounds : ℕ) (h : Host) where
  unfoldable pub list : Proc → Call → Ran (List Bytes)
  list p c = settle p c (h.listing p.log c)

  unfoldable pub listxattr : Option Bytes → Proc → Ran Bytes
  listxattr path p =
      resolve2 rounds h p cwd path at_none pr_none λ buf. on_listing (list p (next_listxattr buf))

  unfoldable pub llistxattr : Option Bytes → Proc → Ran Bytes
  llistxattr path p =
      resolve2 rounds h p cwd path at_nofollow pr_nowalkalong
        λ buf. on_listing (list p (next_llistxattr buf))

  unfoldable pub flistxattr : Dirfd → Proc → Ran Bytes
  flistxattr dfd p = resolve_fd rounds h p dfd λ buf. on_listing (list p (next_flistxattr dfd))
