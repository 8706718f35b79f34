-- ===== src/Exec/Tests.antt =====
-- A program and a script that are started in the chroot /srv/r, and the theorems about them.
use iamroot.Base.{
  ◌≡◌, refl, Bool, false, List, [], ◌∷◌, ◌++◌, none, some, if◌then◌else◌, take, drop, arith,
}
use iamroot.Base.Bytes.{Bytes, codes, streq, strleq, strneq, strncmp_eq}
use iamroot.Base.Errno.{reply, enoexec}
use iamroot.Root.{inchroot, getrootdir}
use iamroot.Path.Sanitize.{path_sanitize}
use iamroot.Path.Realpath.{Outcome, ok, fuel, realpathat}
use iamroot.Path.Realpath.Tests.{sample}
use iamroot.Path.Resolution.{
  cwd, at_none, path_resolution, path_resolution2, add_prefix, on_prefixed, follow_links,
  try_realpath, keep_below, root_prefix, strip_prefix, strip_ignored, print_path,
}
use iamroot.Elf.{little}
use iamroot.Elf.Mapped.{got, on_host}
use iamroot.Elf.Executable.{Candidate, on_magic, fcan_exec, can_exec}
use iamroot.Elf.Tests.{candidate, runs, program32}
use iamroot.Base.Bits.{has_bit}
use iamroot.Script.{
  Script, Hashbang, interpreter_script_hashbang, on_opened, on_size, on_read, on_content, get,
  byte_of, is_blank, is_word,
}
use iamroot.Loader.Arguments.{shifted, total_shift}
use iamroot.Loader.Paths.{basename}
use iamroot.Loader.Machine.{is_netbsd, is_openbsd, is_elf_ldso}
use iamroot.Loader.Prepare.Ready.Tests.{
  host, before, answers, target, pt_interp, musl, named, variables, ready, ready_behind_words,
}
use iamroot.Exec.{starts, environ, strings_of, or_before, put_strings, first_of, reset_env}
use iamroot.Env.{
  getenv, valid, has_equals, find_value, names, begins_with_equals, putenv, put, name_of,
}
use iamroot.Calls.{Proc}
use iamroot.Exec.Start.{System, refuses, execute, with_root, eagain, taken}
use iamroot.Exec.Shell.{buf_size}
use iamroot.Exec.Chroot.{execute-program, execute-script}

-- #!/bin/sh -e
abbrev line : Bytes
line = codes "/bin/sh -e" ++ 10 ∷ codes "exit"

abbrev script : Bytes → Script
script content = record { opened = reply 3; st_size = reply 20; read = λ n. reply (take n content) }

abbrev is_script : Bytes → Bool
is_script path = streq path (codes "/srv/r/x/run")

abbrev script_candidate : Candidate
script_candidate = record {
  st_mode = reply 493;
  opened = reply (record {
    st_mode = reply 493;
    read = λ n. reply (take n (codes "#!/b"));
    image = record { st_size = reply 20; mmap = λ n. reply [] };
  });
}

abbrev system : System
system = record {
  program = λ path. if is_script path then script_candidate else candidate;
  script = λ path. if is_script path then script (35 ∷ 33 ∷ line) else script program32;
  exec_ignored = λ path. false;
  is_ldso = λ name. streq name (codes "ld.so");
  answers = answers;
  libiamroot = none;
}

resolve : Bytes → Outcome Bytes
unfolding path_resolution2 sample host fuel streq strleq strneq add_prefix print_path root_prefix
    getrootdir strip_prefix on_prefixed follow_links try_realpath realpathat path_sanitize
    strip_ignored keep_below
resolve path = path_resolution fuel (host.fs []) before.env 0 cwd (some path) buf_size at_none

shell_found : resolve (codes "/bin/sh") ≡ ok (codes "/srv/r/usr/bin/sh")
unfolding resolve
shell_found = refl

script_found : resolve (codes "/x/run") ≡ ok (codes "/srv/r/x/run")
unfolding resolve
script_found = refl

binary :
    interpreter_script_hashbang (script program32) buf_size (drop 18 program32)
    ≡ Hashbang.refused enoexec
unfolding interpreter_script_hashbang on_opened on_size on_read on_content get byte_of
binary = refl

script_runs : can_exec little script_candidate ≡ got 1
unfolding can_exec fcan_exec on_magic on_host has_bit streq
script_runs = refl

-- In the room behind the path name and the words of the line
shell_found_again :
    path_resolution fuel (host.fs []) before.env 0 cwd (some (codes "/bin/sh")) 8168 at_none
    ≡ ok (codes "/srv/r/usr/bin/sh")
unfolding path_resolution2 sample host fuel streq strleq strneq add_prefix print_path root_prefix
    getrootdir strip_prefix on_prefixed follow_links try_realpath realpathat path_sanitize
    strip_ignored keep_below
shell_found_again = refl

-- execve("/bin/sh", {"sh", "-l"}, environ)
execute-program_example :
    execute
      (codes "/usr")
      (codes "23")
      little
      fuel
      host
      system
      program32
      (codes "/bin/sh")
      (codes "sh")
      (codes "-l" ∷ [])
      before
      cwd
      at_none
      (λ e. refuses eagain)
      environ
      variables
    ≡ starts
        (codes "/srv/r/lib/ld-musl-i386.so.1")
        (codes "/srv/r/lib/ld-musl-i386.so.1"
          ∷ codes "--preload"
          ∷ codes "/h/lib/iamroot/i686/libiamroot-musl-i386.so.1"
          ∷ codes "--library-path"
          ∷ codes "/srv/r/lib:/srv/r/opt"
          ∷ codes "--argv0"
          ∷ codes "sh"
          ∷ codes "/srv/r/usr/bin/sh"
          ∷ codes "-l"
          ∷ [])
        variables
unfolding with_root getenv valid has_equals find_value names begins_with_equals strncmp_eq resolve
    inchroot streq is_netbsd is_openbsd is_elf_ldso shifted total_shift reset_env first_of basename
execute-program_example =
    execute-program (codes "/usr") (codes "23") little fuel host system program32 (codes "/bin/sh")
      (codes "sh") (codes "-l" ∷ []) before environ variables cwd at_none
      (codes "/srv/r/usr/bin/sh") 0 refl refl shell_found runs (λ e. refuses eagain) variables musl
      target pt_interp binary refl (named (codes "/srv/r/usr/bin/sh")) refl
      (ready (codes "/srv/r/usr/bin/sh")) (omega arith)

-- A process in another chroot, and its environment
abbrev elsewhere : Proc
elsewhere = record { env = some (codes "/srv/other"); errno = 0; log = [] }

abbrev others : List Bytes
others = codes "IAMROOT_ROOT=/srv/other" ∷ []

-- execve("/x/run", {"run", "-v"}, {"IAMROOT_ROOT=/srv/r"}), of a script that begins with #!/bin/sh -e
execute-script_example :
    execute
      (codes "/usr")
      (codes "23")
      little
      fuel
      host
      system
      program32
      (codes "/x/run")
      (codes "run")
      (codes "-v" ∷ [])
      elsewhere
      cwd
      at_none
      (λ e. refuses eagain)
      (strings_of variables)
      others
    ≡ starts
        (codes "/srv/r/lib/ld-musl-i386.so.1")
        (codes "/srv/r/lib/ld-musl-i386.so.1"
          ∷ codes "--preload"
          ∷ codes "/h/lib/iamroot/i686/libiamroot-musl-i386.so.1"
          ∷ codes "--library-path"
          ∷ codes "/srv/r/lib:/srv/r/opt"
          ∷ codes "--argv0"
          ∷ codes "/bin/sh"
          ∷ codes "/srv/r/usr/bin/sh"
          ∷ codes "-e"
          ∷ codes "/x/run"
          ∷ codes "-v"
          ∷ [])
        variables
unfolding with_root getenv valid has_equals find_value names begins_with_equals strncmp_eq
    put_strings or_before putenv put name_of resolve inchroot streq is_netbsd is_openbsd is_elf_ldso
    shifted total_shift reset_env first_of basename taken is_blank is_word
execute-script_example =
    execute-script (codes "/usr") (codes "23") little fuel host system program32 (codes "/x/run")
      (codes "run") (codes "-v" ∷ []) elsewhere (strings_of variables) others cwd at_none
      (codes "/srv/r/x/run") 0 refl refl script_found script_runs (λ e. refuses eagain) variables
      musl target pt_interp (codes "/bin/sh") (codes "/srv/r/usr/bin/sh") line
      (codes "-e" ∷ codes "/x/run" ∷ []) 3 19 refl refl refl refl shell_found_again refl
      (named (codes "/srv/r/usr/bin/sh")) refl (ready_behind_words (codes "/srv/r/usr/bin/sh"))
      (omega arith)
