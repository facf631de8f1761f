-- ===== src/Tracking.antt =====
-- edge_runtime/tracking: the tracks of the people that one camera sees, and one tracker to a camera.
pub mod Boxes
pub mod Kalman
pub mod Tracker
pub mod Manager
pub mod Examples
