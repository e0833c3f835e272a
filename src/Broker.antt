-- ===== src/Broker.antt =====
-- broker/src: the cache of messages in partitioned memory, and the six queues over it.
pub mod State
pub mod Partitions
pub mod Consolidate
pub mod Evict
pub mod Store
pub mod Queues
pub mod Requests
pub mod Search
pub mod Layout
pub mod Contents
pub mod Waiting
pub mod Stored
pub mod Publish
pub mod Subscriptors
pub mod Acknowledgements
pub mod Sending
pub mod Late
pub mod Victims
pub mod Buddies
pub mod Known
pub mod Again
pub mod Compaction
pub mod Joins
pub mod Neighbours
