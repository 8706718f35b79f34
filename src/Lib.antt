-- ===== src/Lib.antt =====
-- The code is iamroot, an ELF shim library for LD_PRELOAD that emulates chroot(2) and other
-- privileged calls for unprivileged processes. It is modelled as it is built for Linux with
-- NVERBOSE, where the messages are compiled out.
--
-- A program calls a function of the C library, such as chmod, and iamroot's function of that name
-- is called in its place. It resolves each path name below the root directory that the environment
-- variable IAMROOT_ROOT names, calls the function of the next library (next_chmod) with the
-- result, hides some of its errors, and records in extended attributes what the host could not be
-- told. The root directory is set by chroot and left by chdir and fchdir.
--
-- - Base: the names that all files share; Base/Bytes has the string macros of iamroot.h on byte
--   lists without the null byte, Base/Errno the error numbers, and Base/Bits the operators on mode
--   bits.
-- - Root: iamroot.c, __getrootdir, __setrootdir, __chrootdir, __skiprootdir and __striprootdir,
--   over the value of IAMROOT_ROOT.
-- - Path: path_resolution.c. Path/Fs is what path resolution asks of the host. Path/Text has the
--   scans over path names, Path/Sanitize __path_sanitize, Path/Realpath the loop and the end of
--   __realpathat, and Path/Resolution path_resolution2 with fpath of iamroot.c. The theorems stand
--   in their child modules.
-- - Calls: the functions that a program calls. The state Proc is the value of IAMROOT_ROOT, errno,
--   and the calls that were made to the next library; a call is a constructor of Call, with the
--   name of the source's next_ function, and record_attribute and remove_attribute stand for
--   lsetxattr and lremovexattr of user.iamroot.mode, .uid and .gid. The parameter Host answers by
--   the calls before. Calls/Mode is chmod.c, fchmod.c, fchmodat.c, creat.c, mkdirat.c, mkdir.c,
--   open.c, openat.c, mknodat.c, mknod.c, lchmod.c, mkfifoat.c and mkfifo.c; Calls/Owner is
--   chown.c, lchown.c, fchown.c and fchownat.c; Calls/Files is access.c, faccessat.c, truncate.c,
--   rmdir.c, unlinkat.c, unlink.c, utimensat.c, inotify_add_watch.c and kill.c; Calls/Links is
--   renameat.c, renameat2.c, rename.c, linkat.c, link.c, symlinkat.c and symlink.c; Calls/Rootdir
--   is chroot.c, chdir.c, fchdir.c and getcwd.c; Calls/Attributes is getxattr.c, lgetxattr.c,
--   fgetxattr.c, setxattr.c, lsetxattr.c, fsetxattr.c, removexattr.c, lremovexattr.c and
--   fremovexattr.c, and Calls/Attributes/Listed listxattr.c, llistxattr.c and flistxattr.c;
--   Calls/Lookups is remove.c, euidaccess.c, statfs.c, statvfs.c, ftok.c, utmpname.c, scandir.c,
--   opendir.c, fopen.c, freopen.c, name_to_handle_at.c and fanotify_mark.c; Calls/Times is
--   utimes.c, utime.c, lutimes.c and futimesat.c; Calls/Denied is acct.c, swapon.c, swapoff.c,
--   mount.c, umount.c, umount2.c and unshare.c; Calls/Status is lstat.c, fstatat.c and stat.c.
--   Calls/Requests puts these calls in sequence, and Calls/Requests/Asked says which path names
--   each of them is to have resolved, and how.
-- - Env: env.c, the environment as the list of its strings: getenv, setenv, unsetenv and putenv.
-- - Identity: the user and group numbers in the environment, setuid.c, seteuid.c, setreuid.c,
--   setresuid.c, setfsuid.c, getuid.c, geteuid.c and the same files for groups, with the
--   formatting and the reading of numbers of the C library in Identity/Numbers. Identity/Groups is
--   setgroups.c, getgroups.c and __strtok of iamroot.c, which __group_iterate and __path_iterate
--   call and which reads the first PATH_MAX bytes of a text, over BUFSIZ, 8192, and NGROUPS_MAX,
--   65536.
-- - Elf: the structures of ELF files of dso.c, on hosts of either byte order. Elf/Interp is
--   __elf_ehdr, __felf_header, __elf_interp32, __elf_interp64 and __felf_interp, over an open file
--   with its pread; Elf/Dynamic is __elf_iterate_ehdr32, __elf_iterate_ehdr64 and
--   __elf_iterate_shared_object; Elf/Mapped is __elf_has_interp, over a mapping of the file, where
--   an offset is a pattern of 64 bits and a read out of the mapping is the result `fault`;
--   Elf/Executable is __is_suid, __fcan_exec and __can_exec of iamroot.c.
-- - Loader: what dso.c knows of a program by its ELF header, the name of its loader and its ABI.
--   Loader/Machine is __is_32_bits to __is_openbsd, __machine and __multiarch; Loader/Variable is
--   __env_sanitize, __getvariable and __getdeflib. Loader/Arguments is the second half of __ldso,
--   which moves the words of interparg and puts the options of the loader in front of them.
--   Loader/Paths is __path_strncat, __is_in_path, __is_in_preload, __is_preloading_so,
--   __setld_preload, __preload_so and __getld_library_path, and Loader/Preload is __felf_needed,
--   __elf_needed and __ldso_preload_executable. Loader/Places is __fld_lib_path, __ld_lib_path,
--   __ld_library_path, __secure_execution_mode and __ldso_access; Loader/Context is
--   __felf_so_context, __elf_so_context and __dl_access; Loader/Library is __libiamroot_access and
--   __getlibiamroot; Loader/Names is __ld_ldso_abi, __ld_linux_version and the tests for options;
--   Loader/Prepare is the first half of __ldso with __felf_interp_ldso_abi and __ld_preload.
-- - Exec: execve.c, execveat.c and posix_spawn.c, with _resetenv of env.c. What a call comes to is
--   a value of Started. The root directory is the IAMROOT_ROOT of the environment after _resetenv.
--   Exec/Shell is __exec_sh, and Exec/Start the three functions, which are one function of the
--   directory, the flags and the loader that iamroot runs itself; the directory and the attributes
--   that the next library is given are not part of Started. The record System has what the
--   functions ask of the host.
-- - Script: interpreter-script.c. The memory of the buffer is a list of bytes that is read and
--   written at indices. The loops run on as many rounds as the memory has bytes, since each round
--   moves an index towards the null byte that was put behind what was read.
-- - Calls/Search: __host_path_access and __path_access of iamroot.c, with faccessat of
--   Calls/Files.
--
-- Bounds: PATH_MAX is 4096, NAME_MAX is 255 and SYMLOOP_MAX is 40, as on Linux. A buffer is a byte
-- list, and a write that passes its end is the result `overrun`. The loop of __realpathat runs on
-- a number of rounds: 41 times 8194, since between two links that are followed each round but the
-- last ones takes a byte from at most 4096 that remain, or a second round for it. That is enough
-- as long as no file has the attribute user.iamroot.path-resolution; with such attributes the loop
-- need not end.
--
-- The walk of __ldso_preload_executable runs on as much fuel as the buffer has bytes, since each
-- library is put in the buffer once before what it needs is walked.
--
-- The functions of dso.c that are left, and what sscanf reads as a number, are parameters
-- (Answers).
--
-- The host, which is the kernel, the next library and the bundled copy of jimregexp for
-- IAMROOT_PATH_RESOLUTION_IGNORE, is a parameter. Memory is never short. Messages are not
-- modelled, and neither are the storage of the environment, umask, the readers of passwd, group
-- and shadow files, the forms of execve that search PATH, the rest of the loader (__felf_deflib
-- and the loader that runs inside of iamroot, of dso.c, and ldso-cache.c), tree walks, temporary
-- files, sockets, the entry points that have the code of others under a name such as open64, and
-- the scripts.
pub mod Base
pub mod Root
pub mod Path
pub mod Elf
pub mod Loader
pub mod Script
pub mod Env
pub mod Identity
pub mod Exec
pub mod Calls
