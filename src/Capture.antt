-- ===== src/Capture.antt =====
-- edge_runtime/capture: the frame slot that a capture process shares with the scheduler, the health
-- counters beside it, the delays between reconnects, the loop of the capture process, and the supervisor
-- of all capture processes.
pub mod LatestFrame
pub mod Health
pub mod Reconnect
pub mod Worker
pub mod Supervisor
