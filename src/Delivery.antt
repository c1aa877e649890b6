-- ===== src/Delivery.antt =====
-- The delivery of a message to a tmux pane: its durable checkpoints, and the service that pastes and submits it.
pub mod Record
pub mod Store
pub mod Runtime
pub mod Service
pub mod Effects
pub mod Locks
pub mod Tests
