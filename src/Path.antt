-- ===== src/Path.antt =====
-- path_resolution.c: from a path name of the emulated root to a path name of the host.
pub mod Text
pub mod Fs
pub mod Sanitize
pub mod Canonical
pub mod Realpath
pub mod Resolution
