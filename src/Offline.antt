-- ===== src/Offline.antt =====
-- internal/store/offline: a store in front of the remote one, which answers from a cache and keeps
-- the changes of the user while the server cannot be reached.
pub mod Changes
pub mod Queue
pub mod Cache
pub mod Filter
pub mod Store
