-- ===== src/Tui.antt =====
-- internal/tui, as far as it does not draw.
pub mod Folders
pub mod Settings
pub mod Paging
pub mod Picks
pub mod Pane
pub mod Filters
