-- ===== src/Containers.antt =====
-- The standard library's maps, as the code uses them.
pub mod Order
pub mod OrderedMap
pub mod HashMap
