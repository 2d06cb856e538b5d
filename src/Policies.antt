-- ===== src/Policies.antt =====
-- private/mqtt/mapping.hpp and private/mqtt/interface.hpp: the small enumerations of an interface
-- file, one module to a class, each with its `to_string` and `try_from_str`.
pub mod Reliability
pub mod Retention
pub mod DatabaseRetentionPolicy
pub mod InterfaceType
pub mod InterfaceAggregation
