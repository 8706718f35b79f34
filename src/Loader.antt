-- ===== src/Loader.antt =====
-- dso.c: what the loader of a program is told, by its machine, the name of its loader and its ABI.
pub mod Arguments
pub mod Context
pub mod Library
pub mod Machine
pub mod Paths
pub mod Preload
pub mod Names
pub mod Places
pub mod Prepare
pub mod Variable
pub mod Tests
use iamroot.Base.{ℕ, Option}
use iamroot.Base.Bytes.{Bytes}
use iamroot.Elf.{Ehdr}

-- ehdr, which is not null, with ldso and abi, where -1 is `none`
pub record Target : Type 0 where
  pub ehdr : Ehdr
  pub ldso : Bytes
  pub abi : Option ℕ
