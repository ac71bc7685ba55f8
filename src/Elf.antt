-- ===== src/Elf.antt =====
-- casestudy/sbpf/src/elf_parser: the parser of ELF files.
pub mod Consts
pub mod Types
pub mod Result
pub mod Bytes
pub mod Headers
pub mod Strings
pub mod Parser
pub mod Dynamic
pub mod Parse
pub mod Methods
