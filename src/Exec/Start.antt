-- ===== src/Exec/Start.antt =====
-- execve.c, execveat.c and posix_spawn.c: how a program is started in the chroot, with __ldso of dso.c.
use iamroot.Base.{
  ℕ, zero, suc, ◌+◌, ◌-◌, Bool, true, false, not, List, [], ◌∷◌, ◌++◌, map, Option, none, some,
  ◌==◌, if◌then◌else◌, length, drop,
}
use iamroot.Base.Bytes.{Bytes, codes}
use iamroot.Env.{getenv}
use iamroot.Base.Errno.{enoexec}
use iamroot.Root.{inchroot}
use iamroot.Path.Realpath.{Outcome, ok, fail, overrun, out_of_fuel}
use iamroot.Path.Resolution.{Dirfd, cwd, AtFlags, at_none, path_resolution}
use iamroot.Elf.{Order}
use iamroot.Elf.Executable.{Candidate, can_exec}
use iamroot.Script.{Script, Hashbang, interpreter_script_hashbang, arguments}
use iamroot.Calls.{Host, Proc}
use iamroot.Loader.Arguments.{◌>>=◌, Slots, Frame, arrange, strings}
use iamroot.Loader.Prepare.{Answers, prepare}
use iamroot.Loader.Paths.{basename, preload_so}
use iamroot.Exec.{
  or_before, Started, starts, gives_up, stops, faults, endless, on_resolved, on_checked, Envp,
  reset_env, passed_on, start_with,
}
use iamroot.Exec.Shell.{buf_size, exec_sh}

abbrev pub enosys : ℕ
enosys = 38

abbrev pub eagain : ℕ
eagain = 11

-- How the loader that is run by its name ends inside of iamroot: with -1 and errno, or _exit
pub data Internal : Type 0 where
  refuses : ℕ → Internal
  exits : ℕ → Internal

-- What the function asks of the host: the file of a path name, a script of the path name, the regular
-- expressions of IAMROOT_EXEC_IGNORE and of the names of loaders, what the first half of __ldso asks
-- for, and the library that __preload_libiamroot finds for the process
pub record System : Type 0 where
  pub program : Bytes → Candidate
  pub script : Bytes → Script
  pub exec_ignored : Bytes → Bool
  pub is_ldso : Bytes → Bool
  pub answers : Answers
  pub libiamroot : Option Bytes

-- __note_if_not_preloading_libiamroot_and_ensure_preloading(), of which no error is looked at
unfoldable pub ensure_preloading : Option Bytes → List Bytes → List Bytes
ensure_preloading none env = env
ensure_preloading (some lib) env = or_before env (preload_so lib env)

-- char *interparg[14+1] = { NULL }, with these words in it
unfoldable pub nulls : ℕ → Slots
nulls zero = []
nulls (suc n) = none ∷ nulls n

unfoldable pub interparg : List Bytes → Slots
interparg words = map some words ++ none ∷ nulls (14 - length words)

abbrev is_last : List Bytes → Bool
is_last [] = true
is_last (u ∷ l) = false

-- strnlen(...)+1 of all words but the last
unfoldable pub taken : List Bytes → ℕ
taken [] = 0
taken (v ∷ l) = let rest = taken l in if is_last l then 0 else length v + 1 + rest

-- The process, for which __getroot() looks IAMROOT_ROOT up in this environment
unfoldable pub with_root : List Bytes → Proc → Proc
with_root env p = record p { env = getenv (codes "IAMROOT_ROOT") env }

module _ (prefix version : Bytes) (order : Order) (rounds : ℕ) (h : Host) (s : System)
    (buf : Bytes) where
  -- What is asked for: the path name, argv0, the arguments behind it, and the process
  module _ (path argv0 : Bytes) (args : List Bytes) (p : Proc) where
    -- ret = __ldso(...); if ((ret == -1) && (errno != ENOEXEC)) return -1; if (ret == -1) goto exec_sh;
    unfoldable pub after_ldso : List Bytes → Outcome Frame → Started
    after_ldso env (ok f) = on_resolved (strings f.slots) λ words. start_with words args f.env
    after_ldso env (fail e) =
        if e == enoexec then exec_sh prefix version h path argv0 args env p else gives_up e
    after_ldso env overrun = faults
    after_ldso env out_of_fuel = endless

    -- __ldso(program, argv, interparg, buf, sizeof(buf), off), where interparg[0] is first and room is
    -- sizeof(buf)-off
    unfoldable pub ldso : Bytes → Bytes → List Bytes → ℕ → List Bytes → Outcome Frame
    ldso program first tail room env =
        prepare order rounds h s.answers room p program env
        >>= (λ (o, new). arrange o program first (interparg (first ∷ tail)) new)

    unfoldable pub run_loader : Bytes → Bytes → List Bytes → ℕ → List Bytes → Started
    run_loader program first tail room env = after_ldso env (ldso program first tail room env)

    -- What follows __ldso_execve, and so on, of the loader
    unfoldable pub after_internal : Bytes → List Bytes → Internal → Started
    after_internal resolved envp (refuses e) =
        if e == eagain then starts resolved (argv0 ∷ args) envp else gives_up e
    after_internal resolved envp (exits status) = stops status

    module _ (internal : List Bytes → Internal) (envp : Envp) (env : List Bytes)
        (resolved : Bytes) where
      -- What follows the label loader
      unfoldable pub loader : Bytes → Bytes → List Bytes → ℕ → Started
      loader program first tail room =
          if s.is_ldso (basename path)
          then after_internal resolved (passed_on envp env) (internal env)
          else run_loader program first tail room env

      -- The interpreter, in the rest of buf behind the words that the hashbang takes
      unfoldable pub on_interpreter : ℕ → Option (List Bytes) → Started
      on_interpreter off none =
          if p.errno == enoexec then loader resolved argv0 [] (buf_size - off) else gives_up p.errno
      on_interpreter off (some []) = loader resolved argv0 [] (buf_size - off)
      on_interpreter off (some (w ∷ tail)) =
          on_resolved
            (path_resolution rounds (h.fs p.log) p.env p.errno cwd (some w)
              (buf_size - (off + taken (w ∷ tail))) at_none)
            λ program.
              loader program w tail (buf_size - (off + taken (w ∷ tail) + length program + 1))

      -- ret = __interpreter_script(program, argv, buf, sizeof(buf), off, interparg), and what follows
      unfoldable pub on_hashbang : ℕ → Hashbang → Started
      on_hashbang off (Hashbang.found siz m) =
          on_interpreter off (arguments path (Hashbang.found siz m))
      on_hashbang off (Hashbang.refused e) =
          if e == enoexec then loader resolved argv0 [] (buf_size - off) else gives_up e
      on_hashbang off Hashbang.overrun = faults

      -- What follows __can_exec
      unfoldable pub on_can_exec : ℕ → Started
      on_can_exec ret =
          if ret == 0
          then exec_sh prefix version h path argv0 args env p
          else if not (inchroot p.env)
          then starts path (argv0 ∷ args) (ensure_preloading s.libiamroot env)
          else on_hashbang (length resolved + 1) (
              interpreter_script_hashbang (s.script resolved) buf_size
                (drop (length resolved + 1) buf))

    -- What follows _resetenv(envp), of which env is the environment now
    unfoldable pub start_program :
        Dirfd → AtFlags → (List Bytes → Internal) → Envp → List Bytes → Started
    start_program dfd atflags internal envp env =
        if s.exec_ignored path
        then exec_sh prefix version h path argv0 args env p
        else on_resolved
            (path_resolution rounds (h.fs p.log) p.env p.errno dfd (some path) buf_size atflags)
            λ resolved.
              on_checked (can_exec order (s.program resolved))
                (on_can_exec internal envp env resolved)

  -- The three functions, by the directory and the flags of the path name
  unfoldable pub execute :
      Bytes
      → Bytes
      → List Bytes
      → Proc
      → Dirfd
      → AtFlags
      → (List Bytes → Internal)
      → Envp
      → List Bytes
      → Started
  execute path argv0 args p dfd atflags internal envp environment =
      let env = reset_env envp environment in
      start_program path argv0 args (with_root env p) dfd atflags internal envp env

  -- execve(path, argv, envp), where ldso_execve is __ldso_execve(path, argv, envp)
  unfoldable pub execve :
      Bytes → Bytes → List Bytes → Proc → (List Bytes → Internal) → Envp → List Bytes → Started
  execve path argv0 args p ldso_execve envp env =
      execute path argv0 args p cwd at_none ldso_execve envp env

  -- __ldso_execveat and __ldso_posix_spawn
  abbrev not_implemented : List Bytes → Internal
  not_implemented env = refuses enosys

  unfoldable pub execveat :
      Bytes → Bytes → List Bytes → Proc → Dirfd → AtFlags → Envp → List Bytes → Started
  execveat path argv0 args p dfd atflags envp env =
      execute path argv0 args p dfd atflags not_implemented envp env

  unfoldable pub posix_spawn : Bytes → Bytes → List Bytes → Proc → Envp → List Bytes → Started
  posix_spawn path argv0 args p envp env =
      execute path argv0 args p cwd at_none not_implemented envp env
