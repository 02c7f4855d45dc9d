-- ===== src/Switch.antt =====
-- finsy/switch.py: the switch and its tasks.
pub mod Tasks
pub mod Write
pub mod Queues
