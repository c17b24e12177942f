-- ===== src/Elastic.antt =====
-- elastic.rs, with the slot accesses of raw/arena.rs and the moves of raw/rebuild.rs: the Elastic table.
pub mod Filter
pub mod Modify
pub mod Mask
pub mod Recorded
pub mod Scheduler
pub mod Batch
pub mod Shape
pub mod Key
pub mod Level
pub mod Schedule
mod Search
pub mod Visits
pub mod Pushed
pub mod Bounds
pub mod Extend
pub mod Table
pub mod Choose
pub mod Place
pub mod Resize
pub mod Delete
pub mod Insert
pub mod Reached
pub mod Chosen
pub mod Match
pub mod Lookup
pub mod Routed
pub mod Walk
pub mod Entries
pub mod Assoc
pub mod Valid
pub mod Refine
pub mod Carries
pub mod Fill
pub mod Write
pub mod Placed
pub mod Vacant
pub mod Exceptional
pub mod Unique
pub mod Fresh
pub mod Resized
pub mod Room
pub mod Entered
pub mod Inserted
pub mod Change
pub mod Replaced
pub mod InsertLaws
pub mod Refresh
pub mod Removed
pub mod RemoveLaws
pub mod Empty
pub mod Cleared
pub mod Arena
mod Sample
mod Tests
mod TableTests
mod RunTests
