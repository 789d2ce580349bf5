-- ===== src/Examples.antt =====
-- Concrete runs of the theorems: a codec, a server and a few posts to run them on.
pub mod Codec
pub mod Server
pub mod Queues
pub mod Stores
pub mod Caches
pub mod Queries
pub mod Parts
pub mod Menus
pub mod Pages
pub mod Site
pub mod Fetches
pub mod Rows
pub mod Panes
pub mod Filters
