-- ===== src/Lvs.antt =====
-- pkg/lvs: the IPVS types, the handle that the kernel (or its in-memory stand-in) offers, and the
-- reconciler that drives it.
pub mod Types
pub mod Handle
pub mod Manager
pub mod Reconciler
