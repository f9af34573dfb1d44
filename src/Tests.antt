-- ===== src/Tests.antt =====
-- Concrete runs of the code, and the theorems at concrete inputs.
mod Wire
mod Queues
mod Sending
mod Receiving
mod Scheduling
mod Transporting
mod Calling
mod Running
mod Exchanging
mod Concurrent
mod Straddling
mod Ending
