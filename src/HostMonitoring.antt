-- ===== src/HostMonitoring.antt =====
-- host_monitoring_plugin.py: threads that check hosts while calls of the client run on them.
pub mod Context
pub mod Monitor
pub mod Container
pub mod Service
pub mod Plugin
mod Tests
