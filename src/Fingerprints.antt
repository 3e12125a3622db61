-- ===== src/Fingerprints.antt =====
-- src/fingerprints: the functions of some fingerprints, each on an instruction pointer.
pub mod Frth
pub mod Refc
pub mod Subr
pub mod Toys
pub mod Orth
pub mod Cpli
pub mod Jstr
pub mod Base
pub mod Strn
pub mod Date
pub mod Modu
pub mod Roma
pub mod Bool
pub mod Indv
pub mod Fing
pub mod Hrti
pub mod Time
