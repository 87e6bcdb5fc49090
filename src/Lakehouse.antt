-- ===== src/Lakehouse.antt =====
-- lakehouse/layers.py: the tables of the lakehouse, their layers and their lineage.
pub mod Layers
pub mod Reads
pub mod Lineage
mod Tests
