-- ===== src/Butane.antt =====
-- pkg/butane: the configurations of Flatcar and of Fedora CoreOS, made from the devices of NetBox.
pub mod Config
pub mod Networkd
pub mod Flatcar
pub mod Fcos
