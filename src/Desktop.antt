-- ===== src/Desktop.antt =====
-- gpu: the parts of the desktop application that decide, without its windows, threads and SQL.
pub mod Ppe
pub mod Alerts
pub mod Zones
pub mod Detector
pub mod Cameras
