-- ===== src/Map.antt =====
-- SERVER/src/CHANNEL/map: who is in a map and when it asks to be destroyed, what lies on its ground,
-- what a skill does to its monsters, and the table of the maps.
pub mod Instance
pub mod Manager
pub mod Portal
pub mod Contact
pub mod Drops
pub mod Hits
