-- ===== src/Alert.antt =====
-- alert: what stands between a detection and the alert that people see.
pub mod Cooldown
pub mod Roi
pub mod Pipeline
pub mod Classifier
mod Examples
