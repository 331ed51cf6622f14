-- ===== src/EvLoop.antt =====
-- src/fevent_loop: the event loop. Bits is the `ev_set`, EventSet the conversions of its events,
-- Callbacks the callbacks of an item and their dispatch, ReadyQueue the queues of the events that are
-- ready, Create the creations with their clean-up, WatchTree and WatchPool the watched descriptors, and Run
-- the loop itself.
pub mod Bits
pub mod EventSet
pub mod Callbacks
pub mod ReadyQueue
pub mod Create
pub mod Run
pub mod WatchTree
pub mod WatchPool
pub mod Tests
