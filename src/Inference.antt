-- ===== src/Inference.antt =====
-- edge_runtime/inference: the scheduler that all cameras share, the models' registry, and the queue of
-- requests for poses.
pub mod Scheduler
pub mod Models
pub mod PoseQueue
pub mod Tensors
pub mod Rtmdet
pub mod Rtmpose
pub mod Yolo
