-- ===== src/Schema.antt =====
-- finsy/p4schema.py: the schema of a P4 program.
pub mod DataTypes
pub mod EntityMap
pub mod MatchField
pub mod Actions
