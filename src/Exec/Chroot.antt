-- ===== src/Exec/Chroot.antt =====
-- What execve, execveat and posix_spawn start in a chroot.
use iamroot.Base.{
  ℕ, zero, suc, ◌+◌, ◌-◌, ◌<◌, ◌≤◌, ◌≡◌, ◌∙◌, ap, refl, Bool, true, false, List, [], ◌∷◌, ◌++◌,
  append_assoc, Option, none, some, ◌||◌, ltb, ◌==◌, if◌then◌else◌, length, length-append, drop,
  arith, subst,
}
use iamroot.Base.Bytes.{Bytes}
use iamroot.Base.Errno.{reply, enoexec}
use iamroot.Root.{inchroot}
use iamroot.Path.Realpath.{ok}
use iamroot.Path.Resolution.{Dirfd, cwd, AtFlags, at_none, path_resolution}
use iamroot.Elf.{Order}
use iamroot.Elf.Executable.{can_exec}
use iamroot.Elf.Mapped.{got}
use iamroot.Script.{Hashbang, interpreter_script_hashbang, arguments, interpreter_script}
use iamroot.Path.Text.{is_nil}
use iamroot.Script.Copy.{word, unblanked, behind_word}
use iamroot.Script.Line.{words_of}
use iamroot.Script.Arguments.{interpreter_script-words_of}
use iamroot.Calls.{Host, Proc}
use iamroot.Loader.Arguments.{Options}
use iamroot.Loader.{Target}
use iamroot.Loader.Machine.{is_netbsd, is_openbsd}
use iamroot.Loader.Prepare.{elf_interp_ldso_abi, prepare}
use iamroot.Loader.Prepare.Ready.{Holds, IsReady, prepare-IsReady}
use iamroot.Loader.Arguments.Expected.{options_of, environment_of}
use iamroot.Loader.Arguments.Counted.{length-options_of, total_shift-le}
use iamroot.Loader.Arguments.Arranged.{arrange-strings}
use iamroot.Loader.Paths.{basename}
use iamroot.Exec.{starts, on_resolved, on_checked, Envp, reset_env, first_of, start_with, arg_max}
use iamroot.Exec.Shell.{buf_size}
use iamroot.Exec.Start.{
  Internal, System, nulls, interparg, after_ldso, ldso, run_loader, loader, on_interpreter,
  on_hashbang, on_can_exec, start_program, with_root, execute, taken,
}

length-nulls : (n : ℕ) → length (nulls n) ≡ n
unfolding nulls
length-nulls zero = refl
length-nulls (suc n) = ap suc (length-nulls n)

-- A script that has words was read.
arguments-found :
    (path : Bytes) (r : Hashbang) (w : Bytes) (tail : List Bytes)
    → arguments path r ≡ some (w ∷ tail)
    → (siz : ℕ) × (m : Bytes) × (r ≡ Hashbang.found siz m)
      × (arguments path (Hashbang.found siz m) ≡ some (w ∷ tail))
unfolding arguments
arguments-found path (Hashbang.found siz m) w tail e = (siz, m, refl, e)
arguments-found path (Hashbang.refused n) w tail e = cc e
arguments-found path Hashbang.overrun w tail e = cc e

abbrev Short : Option (List Bytes) → Type 0
Short none = Unit
Short (some l) = length l ≤ 4

Short-if : (b : Bool) (x y : Option (List Bytes)) → Short x → Short y → Short (if b then x else y)
Short-if true x y h k = h
Short-if false x y h k = k

words_of-Short : (path t : Bytes) → Short (words_of path t)
words_of-Short path t =
    let w = word (unblanked t) in
    let a = word (unblanked (behind_word (unblanked t))) in
    Short-if (is_nil w) none (if is_nil a then some (w ∷ path ∷ []) else some (w ∷ a ∷ path ∷ []))
      tt
      (Short-if (is_nil a) (some (w ∷ path ∷ [])) (some (w ∷ a ∷ path ∷ [])) (omega arith)
        (omega arith))

words_of-short :
    (path t w : Bytes) (tail : List Bytes) → words_of path t ≡ some (w ∷ tail) → length tail ≤ 3
words_of-short path t w tail e =
    let h : Short (some (w ∷ tail)) = subst Short e (words_of-Short path t) in omega arith

start_with-starts :
    (words args env : List Bytes)
    → length words + length args < 131000
    → start_with words args env ≡ starts (first_of (words ++ args)) (words ++ args) env
unfolding start_with
start_with-starts words args env h =
    let e : ltb (1 + length words + length args) arg_max ≡ true = ground arith in rw e refl

-- The process with the IAMROOT_ROOT of the environment after _resetenv(envp)
abbrev pub now : Proc → Envp → List Bytes → Proc
now p envp env = with_root (reset_env envp env) p

module _ (prefix version : Bytes) (order : Order) (rounds : ℕ) (h : Host) (s : System)
    (buf : Bytes) where
  module _ (path argv0 : Bytes) (args : List Bytes) (p : Proc) where
    -- A program that the first half of __ldso has taken
    run_loader-starts :
        (program first : Bytes) (tail env new : List Bytes) (room : ℕ) (o : Options) (t : Target)
        (pt_interp : Bytes)
        → length tail ≤ 3
        → elf_interp_ldso_abi order rounds h s.answers program p ≡ ok (t, pt_interp)
        → (is_netbsd t || is_openbsd t) ≡ false
        → length args < 130000
        → prepare order rounds h s.answers room p program env ≡ ok (o, new)
        → run_loader prefix version order rounds h s buf path argv0 args p program first tail room
            env
          ≡ starts
              (first_of (options_of o first ++ program ∷ (tail ++ args)))
              (options_of o first ++ program ∷ (tail ++ args))
              (environment_of o first new)
    unfolding run_loader ldso interparg after_ldso on_resolved
    run_loader-starts program first tail env new room o t pt_interp short named other few prepared =
        let (c, preload, library_path) =
          subst (Holds IsReady) prepared
            (prepare-IsReady order rounds h s.answers room p program env t pt_interp named other) in
        let (f, run, words, count, kept) =
          arrange-strings o program first tail (nulls (14 - suc (length tail))) new c short
            (omega (arith, length-nulls (14 - suc (length tail)))) in
        let n = length-options_of o first c in
        let m = total_shift-le o c in
        let l = length-append (options_of o first) (program ∷ tail) in
        rw (prepared, run, words, kept)
          (start_with-starts (options_of o first ++ program ∷ tail) args
              (environment_of o first new) (omega arith)
            ∙ ap (λ w. starts (first_of w) w (environment_of o first new))
                (append_assoc (options_of o first) (program ∷ tail) args))

  -- A program in a chroot that is not ignored, is resolved and can be run, by the IAMROOT_ROOT of the
  -- environment after _resetenv(envp)
  module _ (path argv0 : Bytes) (args : List Bytes) (p : Proc) (envp : Envp) (env : List Bytes)
      (dfd : Dirfd) (atflags : AtFlags) (program : Bytes) (n : ℕ)
      (in_chroot : inchroot (now p envp env).env ≡ true) (wanted : s.exec_ignored path ≡ false)
      (resolved : path_resolution rounds
          (h.fs (now p envp env).log)
          (now p envp env).env
          (now p envp env).errno
          dfd
          (some path)
          buf_size
          atflags
        ≡ ok program)
      (runs : can_exec order (s.program program) ≡ got (suc n)) where
    execute-on_hashbang :
        (internal : List Bytes → Internal)
        → execute prefix version order rounds h s buf path argv0 args p dfd atflags internal envp
            env
          ≡ on_hashbang prefix version order rounds h s buf path argv0 args
              (now p envp env)
              internal
              envp
              (reset_env envp env)
              program
              (length program + 1)
              (interpreter_script_hashbang
                (s.script program)
                buf_size
                (drop (length program + 1) buf))
    unfolding execute start_program on_resolved on_checked on_can_exec
    execute-on_hashbang internal =
        let some_ret : (suc n == 0) ≡ false = ground arith in
        rw (wanted, resolved, runs, some_ret, in_chroot) refl

    -- With the IAMROOT_ROOT that the environment has when the strings of envp are in it: of a
    -- program in a chroot that is not ignored, is resolved and can be run, with fewer than
    -- 130000 arguments, that is no script, not the loader, and not of NetBSD or OpenBSD, and of
    -- which the first half of __ldso does not fail: its loader is started with its options, the
    -- program and the arguments behind argv0, and with what the loader has no option for in the
    -- environment.
    pub execute-program :
        (internal : List Bytes → Internal) (new : List Bytes) (o : Options) (u : Target)
        (pt_interp : Bytes)
        → interpreter_script_hashbang (s.script program) buf_size (drop (length program + 1) buf)
          ≡ Hashbang.refused enoexec
        → s.is_ldso (basename path) ≡ false
        → elf_interp_ldso_abi order rounds h s.answers program (now p envp env) ≡ ok (u, pt_interp)
        → (is_netbsd u || is_openbsd u) ≡ false
        → prepare order rounds h s.answers
            (buf_size - (length program + 1))
            (now p envp env)
            program
            (reset_env envp env)
          ≡ ok (o, new)
        → length args < 130000
        → execute prefix version order rounds h s buf path argv0 args p dfd atflags internal envp
            env
          ≡ starts
              (first_of (options_of o argv0 ++ program ∷ args))
              (options_of o argv0 ++ program ∷ args)
              (environment_of o argv0 new)
    unfolding on_hashbang loader
    execute-program internal new o u pt_interp binary other named system prepared few =
        execute-on_hashbang internal
        ∙ rw (binary, other)
            (run_loader-starts path argv0 args (now p envp env) program argv0 []
              (reset_env envp env) new (buf_size - (length program + 1)) o u pt_interp (omega arith)
              named system few prepared)

    -- With the IAMROOT_ROOT that the environment has when the strings of envp are in it: of a
    -- program in a chroot that is not ignored, is resolved and can be run, with fewer than
    -- 130000 arguments, that is a script and is not named like a loader, and of whose
    -- interpreter, which is not of NetBSD or OpenBSD, the first half of __ldso does not fail:
    -- the loader of its interpreter is started with its options, the interpreter, the words
    -- behind it on the first line, of which there is at most one, the path name that was asked
    -- for, and the arguments behind argv0, and with what the loader has no option for in the
    -- environment.
    pub execute-script :
        (internal : List Bytes → Internal) (new : List Bytes) (o : Options) (u : Target)
        (pt_interp : Bytes) (w interp t : Bytes) (tail : List Bytes) (fd size : ℕ)
        → (s.script program).opened ≡ reply fd
        → (s.script program).st_size ≡ reply (suc size)
        → (s.script program).read (length (drop (length program + 1) buf) - 1) ≡ reply (35 ∷ 33 ∷ t)
        → words_of path t ≡ some (w ∷ tail)
        → path_resolution rounds
            (h.fs (now p envp env).log)
            (now p envp env).env
            (now p envp env).errno
            cwd
            (some w)
            (buf_size - (length program + 1 + taken (w ∷ tail)))
            at_none
          ≡ ok interp
        → s.is_ldso (basename path) ≡ false
        → elf_interp_ldso_abi order rounds h s.answers interp (now p envp env) ≡ ok (u, pt_interp)
        → (is_netbsd u || is_openbsd u) ≡ false
        → prepare order rounds h s.answers
            (buf_size - (length program + 1 + taken (w ∷ tail) + length interp + 1))
            (now p envp env)
            interp
            (reset_env envp env)
          ≡ ok (o, new)
        → length args < 130000
        → execute prefix version order rounds h s buf path argv0 args p dfd atflags internal envp
            env
          ≡ starts
              (first_of (options_of o w ++ interp ∷ (tail ++ args)))
              (options_of o w ++ interp ∷ (tail ++ args))
              (environment_of o w new)
    unfolding on_hashbang on_interpreter loader on_resolved
    execute-script internal new o u pt_interp w interp t tail fd size opened sized content words
          found other named system prepared few =
        let (siz, m, script, cut) =
          arguments-found path
            (interpreter_script_hashbang (s.script program) buf_size
              (drop (length program + 1) buf))
            w tail
            (unfold interpreter_script in
              interpreter_script-words_of (s.script program) path (drop (length program + 1) buf) t
                buf_size fd size opened sized content
              ∙ words) in
        execute-on_hashbang internal
        ∙ rw (script, cut, found, other)
            (run_loader-starts path argv0 args (now p envp env) interp w tail (reset_env envp env)
              new (buf_size - (length program + 1 + taken (w ∷ tail) + length interp + 1)) o u
              pt_interp (words_of-short path t w tail words) named system few prepared)
