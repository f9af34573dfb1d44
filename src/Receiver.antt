-- ===== src/Receiver.antt =====
-- transport/receiver.rs: the receiving state machine. `State` has its data and the bitmap of a
-- message, `Scheduler` the grants, and `Handlers` the operations; the other modules prove.
pub mod State
pub mod Keys
pub mod Scheduler
pub mod Handlers
pub mod Reassembly
pub mod Absorb
pub mod Complete
pub mod Frame
pub mod Loses
pub mod Valid
pub mod Keeping
pub mod Invariant
pub mod Panics
pub mod Sorting
pub mod Selection
pub mod Grants
pub mod Marks
pub mod Single
pub mod Stalled
pub mod GivesUp
pub mod Stuck
pub mod StuckRuns
pub mod Chunks
pub mod Delivery
pub mod Arrivals
pub mod Steps
pub mod Once
pub mod Truthful
pub mod HonestRuns
pub mod Bounds
