-- ===== src/Exec/Shell.antt =====
-- iamroot.c: __exec_sh, which has the script exec.sh of the host start the program.
use iamroot.Base.{ℕ, true, List, [], ◌∷◌, ◌++◌, Option, none, some, if◌then◌else◌}
use iamroot.Base.Bytes.{Bytes, codes, strncpy}
use iamroot.Base.Errno.{Reply, reply, refuse}
use iamroot.Path.Text.{is_nil}
use iamroot.Path.Resolution.{cwd}
use iamroot.Env.{getenv, setenv, unsetenv}
use iamroot.Calls.{Host, Proc, Ran, back, crashed, stuck, next_faccessat, on_success, call}
use iamroot.Calls.Search.{host_path_access}
use iamroot.Identity.{and_then}
use iamroot.Exec.{Started, gives_up, faults, endless, start_with}

-- sizeof(buf), 2*PATH_MAX
abbrev pub buf_size : ℕ
buf_size = 8192

abbrev at_eaccess : ℕ
at_eaccess = 512

unfoldable pub or_empty : Option Bytes → Bytes
or_empty none = []
or_empty (some v) = v

-- PREFIX and VERSION of the build
module _ (prefix version : Bytes) where
  abbrev or_installed : Option Bytes → Bytes
  or_installed none = prefix ++ codes "/lib/iamroot/exec.sh"
  or_installed (some exec) = exec

  -- __getexec()
  unfoldable pub getexec : List Bytes → Bytes
  getexec env = or_installed (getenv (codes "IAMROOT_EXEC") env)

  module _ (h : Host) where
    unfoldable pub installed_exec_sh : List Bytes → Proc → Ran Bytes
    installed_exec_sh env p =
        on_success (λ n q. back (some (strncpy (getexec env) buf_size)) q)
          (call h p (next_faccessat cwd (strncpy (getexec env) buf_size) 0 at_eaccess))

    -- if (siz > 0) exec_sh = buf; if (!exec_sh) ...
    unfoldable pub or_else_installed : List Bytes → Ran Bytes → Ran Bytes
    or_else_installed env (back (some buf) q) =
        if is_nil buf then installed_exec_sh env q else back (some buf) q
    or_else_installed env (back none q) = installed_exec_sh env q
    or_else_installed env crashed = crashed
    or_else_installed env stuck = stuck

    unfoldable pub in_origin : List Bytes → Option Bytes → Proc → Ran Bytes
    in_origin env none p = installed_exec_sh env p
    in_origin env (some origin) p =
        or_else_installed env (host_path_access h (codes "exec.sh") 0 (some origin) buf_size p)

    -- The first half of __exec_sh
    unfoldable pub find_exec_sh : List Bytes → Proc → Ran Bytes
    find_exec_sh env p = in_origin env (getenv (codes "IAMROOT_ORIGIN") env) p

    -- _setenv(backup, _getenv(name) ?: "", 1)
    unfoldable pub back_up : Bytes → Bytes → List Bytes → Reply (List Bytes)
    back_up backup name env = setenv backup (or_empty (getenv name env)) true env

    -- The second half, for the environment
    unfoldable pub shell_env : Bytes → List Bytes → Reply (List Bytes)
    shell_env argv0 env = and_then (setenv (codes "IAMROOT_VERSION") version true env) λ e1.
        and_then (setenv (codes "_argv0") argv0 true e1) λ e2.
          and_then (back_up (codes "_preload") (codes "LD_PRELOAD") e2) λ e3.
            and_then (back_up (codes "_library_path") (codes "LD_LIBRARY_PATH") e3) λ e4.
              and_then (unsetenv (codes "LD_PRELOAD") e4)
                λ e5. unsetenv (codes "LD_LIBRARY_PATH") e5

    unfoldable pub with_shell : Bytes → List Bytes → Bytes → Reply (List Bytes) → Started
    with_shell path args exec_sh (reply env) = start_with (exec_sh ∷ path ∷ []) args env
    with_shell path args exec_sh (refuse e) = gives_up e

    unfoldable pub on_exec_sh : Bytes → Bytes → List Bytes → List Bytes → Ran Bytes → Started
    on_exec_sh path argv0 args env (back (some exec_sh) q) =
        with_shell path args exec_sh (shell_env argv0 env)
    on_exec_sh path argv0 args env (back none q) = gives_up q.errno
    on_exec_sh path argv0 args env crashed = faults
    on_exec_sh path argv0 args env stuck = endless

    -- What follows the label exec_sh of execve, with __exec_sh(path, argv, interparg, buf, bufsiz)
    unfoldable pub exec_sh : Bytes → Bytes → List Bytes → List Bytes → Proc → Started
    exec_sh path argv0 args env p = on_exec_sh path argv0 args env (find_exec_sh env p)
