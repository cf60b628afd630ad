-- ===== src/Stations.antt =====
-- Stations side by side: the datagrams that one daemon sends are what another receives.
pub mod Roles
pub mod Steps
pub mod Pair
pub mod Relay
