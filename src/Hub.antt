-- ===== src/Hub.antt =====
-- pkg/service-hub with pkg/util/namespace: the hub that exchanges global services between clusters.
pub mod Namespace
pub mod Manager
pub mod KeySet
pub mod Clusters
pub mod Slices
pub mod Exporter
pub mod ApiServer
pub mod Client
pub mod Cleaner
pub mod Recording
pub mod Options
pub mod Startup
pub mod Process
pub mod Importer
pub mod Tests
pub mod Runs
mod Orders
pub mod Sessions
pub mod Ticks
pub mod Links
mod Starts
mod Sweeps
mod Races
