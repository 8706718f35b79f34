-- ===== src/Exec.antt =====
-- execve.c, execveat.c and posix_spawn.c, which start a program by its loader, with _resetenv of env.c
-- and __exec_sh of iamroot.c.
pub mod Shell
pub mod Start
pub mod Chroot
pub mod Tests
use iamroot.Base.{
  ℕ, zero, suc, ◌+◌, Bool, List, [], ◌∷◌, ◌++◌, Option, none, some, ltb, if◌then◌else◌, length,
}
use iamroot.Base.Bytes.{Bytes}
use iamroot.Base.Errno.{Reply, reply, refuse}
use iamroot.Path.Realpath.{Outcome, ok, fail, overrun, out_of_fuel}
use iamroot.Env.{putenv}
use iamroot.Elf.Mapped.{Access, got, failed, fault}

-- What the function comes to: a call of the next library's function, with the path name, the
-- arguments and the environment; -1 with errno; _exit with a status; a read or a write past a
-- buffer; or path resolution without an end.
pub data Started : Type 0 where
  starts : Bytes → List Bytes → List Bytes → Started
  gives_up : ℕ → Started
  stops : ℕ → Started
  faults : Started
  endless : Started

unfoldable pub on_resolved {ℓ} : {A : Type ℓ} → Outcome A → (A → Started) → Started
on_resolved (ok a) k = k a
on_resolved (fail e) k = gives_up e
on_resolved overrun k = faults
on_resolved out_of_fuel k = endless

unfoldable pub on_checked : Access ℕ → (ℕ → Started) → Started
on_checked (got n) k = k n
on_checked (failed e) k = gives_up e
on_checked fault k = faults

-- envp: NULL, __environ, or other strings
pub data Envp : Type 0 where
  null : Envp
  environ : Envp
  strings_of : List Bytes → Envp

-- _putenv(*env), of which no error is looked at
unfoldable pub or_before : List Bytes → Reply (List Bytes) → List Bytes
or_before env (reply new) = new
or_before env (refuse e) = env

-- The loop of _resetenv over envp
unfoldable pub put_strings : List Bytes → List Bytes → List Bytes
put_strings [] env = env
put_strings (s ∷ envp) env = put_strings envp (or_before env (putenv s env))

-- if (envp && envp != __environ) envp = _resetenv((char **)envp); the strings of __environ stay in it.
unfoldable pub reset_env : Envp → List Bytes → List Bytes
reset_env null env = env
reset_env environ env = env
reset_env (strings_of envp) env = put_strings envp env

-- What envp stands for then
unfoldable pub passed_on : Envp → List Bytes → List Bytes
passed_on null env = []
passed_on environ env = env
passed_on (strings_of envp) env = env

abbrev pub arg_max : ℕ
arg_max = 131072

abbrev pub e2big : ℕ
e2big = 7

-- *nargv
unfoldable pub first_of : List Bytes → Bytes
first_of [] = []
first_of (w ∷ words) = w

-- The words of interparg and the arguments behind argv0, if they are not too many
unfoldable pub start_with : List Bytes → List Bytes → List Bytes → Started
start_with words args env =
    if ltb (1 + length words + length args) arg_max
    then starts (first_of (words ++ args)) (words ++ args) env
    else gives_up e2big
