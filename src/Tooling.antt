-- ===== src/Tooling.antt =====
-- tooling: the programs that fill the servers of a test environment.
pub mod SeedNetbox
pub mod SeedAuthentik
