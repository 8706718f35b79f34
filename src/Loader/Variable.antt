-- ===== src/Loader/Variable.antt =====
-- dso.c: the name of the environment variable for a program, and the default library path.
pub mod Laws
use iamroot.Base.{
  ℕ, ◌+◌, ◌-◌, Bool, true, false, not, ◌&&◌, List, [], ◌∷◌, ◌++◌, map, Option, none, some, ◌==◌,
  ltb, leb, if◌then◌else◌, length,
}
use iamroot.Base.Bytes.{Bytes, codes, name_max}
use iamroot.Base.Errno.{Reply, reply, refuse, enospc}
use iamroot.Path.Text.{is_nil}
use iamroot.Env.{getenv}
use iamroot.Identity.Numbers.{print_unsigned}
use iamroot.Loader.{Target}
use iamroot.Loader.Machine.{machine, multiarch, no_abi, is_gnu_linux, is_64_bits, is_netbsd}

-- toupper and tolower, in the C locale
unfoldable pub to_upper : ℕ → ℕ
to_upper c = if leb 97 c && leb c 122 then c - 32 else c

unfoldable pub to_lower : ℕ → ℕ
to_lower c = if leb 65 c && leb c 90 then c + 32 else c

-- One round of the loop of __env_sanitize
unfoldable pub sanitize_byte : Bool → ℕ → ℕ
sanitize_byte upper c = if c == 45 then 95 else if upper then to_upper c else to_lower c

-- __env_sanitize(name, upper)
unfoldable pub env_sanitize : Bytes → Bool → Bytes
env_sanitize name upper = map (sanitize_byte upper) name

-- '_' and a part of the name
abbrev joined : Bytes → Bytes
joined part = 95 ∷ part

-- "_%i", if abi is not -1
unfoldable pub abi_part : Option ℕ → Bytes
abi_part none = []
abi_part (some a) = joined (print_unsigned a)

-- The eight formats of __getvariable
unfoldable pub variable_name : Bytes → Option Bytes → Bytes → Option ℕ → Bytes
variable_name name (some m) ldso abi =
    if not (is_nil ldso)
    then name ++ joined m ++ joined ldso ++ abi_part abi
    else name ++ joined m ++ abi_part abi
variable_name name none ldso abi =
    if not (is_nil ldso) then name ++ joined ldso ++ abi_part abi else name ++ abi_part abi

-- n = _snprintf(buf, bufsiz, ...); if (n == -1) return -1; and the end of __getvariable
unfoldable pub sanitized : Bytes → ℕ → Reply Bytes
sanitized text bufsiz =
    if ltb (length text) bufsiz then reply (env_sanitize text true) else refuse enospc

-- __getvariable(ehdr, ldso, abi, name, buf, bufsiz)
unfoldable pub getvariable : Target → Bytes → ℕ → Reply Bytes
getvariable t name bufsiz = sanitized (variable_name name (machine t) t.ldso t.abi) bufsiz

-- A value, or else what follows
unfoldable pub or_else : Option Bytes → Option Bytes → Option Bytes
or_else none rest = rest
or_else (some v) rest = some v

unfoldable pub guessed_deflib : Target → Bytes
guessed_deflib t =
    if is_gnu_linux t
    then (if is_64_bits t then codes "/lib64:/usr/lib64" else codes "/lib:/usr/lib")
    else if is_netbsd t
    then codes "/lib:/usr/pkg/lib:/usr/lib"
    else codes "/lib:/usr/local/lib:/usr/lib"

-- What __getdeflib does with the name of the variable
unfoldable pub deflib_of : Target → List Bytes → Reply Bytes → Option Bytes
deflib_of t env (refuse e) = none
deflib_of t env (reply variable) =
    or_else (getenv variable env)
      (or_else (getenv (codes "IAMROOT_DEFLIB") env) (some (guessed_deflib t)))

-- __getdeflib(ehdr, ldso, abi), where `wanted` is __getmultiarch()
unfoldable pub getdeflib : Bool → List Bytes → Target → Option Bytes
getdeflib wanted env t =
    or_else (multiarch wanted t) (deflib_of t env (getvariable t (codes "IAMROOT_DEFLIB") name_max))
