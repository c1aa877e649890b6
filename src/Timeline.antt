-- ===== src/Timeline.antt =====
-- The lifecycle rows of browser-issued commands, apps/owner/local-tmux-owner/command_timeline.py.
pub mod Command
pub mod Event
pub mod Store
pub mod Tests
