-- ===== src/PluginService.antt =====
-- aws_advanced_python_wrapper/plugin_service.py: the parts of `PluginServiceImpl`.
pub mod Hosts
pub mod Topology
mod Tests
