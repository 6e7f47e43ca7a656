-- ===== src/Command.antt =====
-- cli/machinecfg/cmd: the arguments of the command line, and the commands, which sync and show
-- Hardware objects and clusters and write the configurations of devices.
pub mod Arguments
pub mod HardwareSync
pub mod Configs
pub mod HardwareShow
pub mod Run
pub mod Machines
pub mod Clusters
pub mod Reads
pub mod Refused
pub mod Reports
