-- ===== src/Tinkerbell.antt =====
-- pkg/tinkerbell: Hardware objects made from NetBox's devices, and the status that flows back.
pub mod Names
pub mod Status
pub mod Patches
pub mod Lookup
pub mod Hardware
pub mod Reconcile
