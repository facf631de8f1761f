-- ===== src/Lib.antt =====
-- A model of the safety monitor's core in antt, with the theorems that make it correct.
--
-- The monitor watches a site by camera. Two generations of its capture live in the repository, and both
-- pass frames between processes through shared memory:
--   * edge_runtime/: a capture process to each camera publishes into a one-frame slot, and one shared
--     scheduler reads the newest frame of every slot;
--   * edge/ and inference/: a capture process (P1) writes frames into one of two slots, an inference
--     process (P2) locks a slot, runs the model, and writes its result; P1 reads the frame back from
--     the slot, draws the result on it and frees the slot, and passes the result to the alert pipeline of
--     alert/, which drops or dispatches each violation. Frames of several cameras that arrive over
--     the network are polled in turn by a round-robin scheduler.
-- A desktop application, gpu/, checks protective equipment and raises alerts by itself, and server/
-- takes the events of the edge devices.
--
-- Which file models which part:
--   * Capture/LatestFrame.antt: `FramePacket` and `LatestFrameBuffer` of
--     edge_runtime/capture/latest_frame_buffer.py. `init`, `publish` and `read_latest` are its methods,
--     each one step because each holds the lock. Validity has the invariant, Delivery what a reader
--     gets, Accounting a producer and a reader together, where `poll` is one camera's part of
--     `_collect_batch` in edge_runtime/inference/scheduler.py.
--   * Capture/Health.antt: edge_runtime/capture/camera_health.py.
--   * Capture/Reconnect.antt: edge_runtime/capture/reconnect_policy.py, delays in milliseconds.
--   * Capture/Worker.antt: `_capture_process_main` of edge_runtime/capture/worker.py, which owns a slot,
--     the health counters and a reconnect policy. A `Phase` is a place in its two loops, an `Event` what
--     the camera, the clock or the stop flag answers there; `step` is one turn.
--     Capture/Supervisor.antt: `CaptureWorker` of the same file, which starts and stops that process, and
--     edge_runtime/supervisor.py, where `watch` is one turn of `_watchdog_loop` on all cameras.
--   * SharedMemory/Words.antt: the little-endian words of the control segment of shared/memory.py;
--     SharedMemory.antt: the methods of `FrameBuffer`. Results and Attach are about the result area and
--     about a process that attaches.
--   * SharedMemory/Protocol.antt: the parts of `_handle_frame` (edge/capture_loop.py) and
--     `InferenceWorker.step` (inference/inference_worker.py) that touch the buffer, as four events of
--     one system, in any order. Each reading and writing of a frame or of a result is one event, although
--     the code takes no lock. In Reading, P1 reads a result in two events with those of P2 between them, and
--     SharedMemory/Torn.antt is about a result that is written there.
--   * RoundRobin.antt: inference/scheduler.py.
--   * Inference/Scheduler.antt: `SharedInferenceScheduler` of edge_runtime/inference/scheduler.py, which
--     reads the slots of Capture/LatestFrame.antt: `collect_batch`, `run_once`, `put_result` and
--     `get_result` are its methods, `answer_batch` the part of `run_once` after the pipeline's answer.
--     Accounts has its counters in every order of calls, Batches what it collects, Circuit its breaker,
--     Rising the numbers of the frames that go to the pipeline.
--   * Inference/PoseQueue.antt: `BoundedPoseQueue` of the same file, with the functions of Python's
--     `heapq` that it calls. Kept has which requests wait, were handed out or were dropped, in any order of
--     calls.
--   * Inference/Models.antt and Inference/Models/Records.antt: `ModelRegistry` of
--     edge_runtime/inference/model_registry.py, where Loading is about `load`, `get` and `close` after
--     one another.
--   * Inference/Rtmdet.antt and Inference/Rtmpose.antt: the pipelines rtmdet.py and rtmpose.py of
--     edge_runtime/inference/pipelines, on the arrays of Inference/Tensors.antt. `infer_frames` and
--     `infer_requests` prepare images, call the backend and decode what it answers. Boxed and Named are
--     about the decoding, Mapped about batches.
--   * Runtime.antt: edge_runtime/phase2_runtime.py, the threads that join these parts. `consume` is a turn
--     of `_consume_detections`: a result of the scheduler goes through the tracker of its camera, and each
--     track asks for a pose. `run_pose` is a turn of `_run_pose`, which takes requests and hands them to the
--     pose pipeline. Waiting is about `_put_latest`, Pacing about the requests of one track, Collected about
--     the inner loop of `_run_pose`, Lasting about both threads in any order.
--   * Inference/Yolo.antt: inference/model_manager.py, inference/detector.py and what
--     inference/inference_worker.py makes of the detections.
--   * Alert/Cooldown.antt: alert/cooldown.py; Alert/Roi.antt: alert/roi_matcher.py; Alert/Pipeline.antt:
--     alert/__init__.py and alert/dispatcher.py, which call both for every violation: the region first,
--     then the cool-down, then the dispatch. Coordinates and polygons are a `Geometry`, what the database
--     and the clock answer is a `Moment`.
--     Alert/Classifier.antt is alert/classifier.py, which finds those violations, where Fall is about
--     `_compute_fall_score` and Counts about `classify`.
--   * Vision.antt: shared/schemas/vision.py, whose checks on construction are the functions `make_`.
--   * Tracking/Kalman.antt, Tracking/Boxes.antt and Tracking/Tracker.antt: `KalmanFilterXYAH`, the box
--     functions and `ByteTracker` of edge_runtime/tracking/byte_tracker.py. The detections of one frame are
--     associated twice with the tracks: `associate` is `_associate`, `finish` the part of `update` after
--     both. The tracks are one store, and a write to a track object is a write by its id. Matching and
--     Assigned are about an association, Ids and Lifecycle about the tracks, Update about the whole method.
--     Tracking/Manager.antt is edge_runtime/tracking/manager.py.
--   * Evidence.antt: geometry.py and body_regions.py of edge_runtime/analytics/roi, Evidence/Rules.antt
--     evidence.py: the regions of a pose, and what a rule makes of them. Occluded is about poses with
--     missing keypoints, Matched about the answer.
--   * Desktop/Ppe.antt: gpu/classifier.py and gpu/ppe_checker.py; Desktop/Alerts.antt:
--     gpu/alert_manager.py, where an alert passes its cool-down, the database and the callback.
--     Desktop/Zones.antt: gpu/roi_checker.py; Desktop/Detector.antt: gpu/detector.py; Desktop/Cameras.antt:
--     gpu/cam1_thread.py and gpu/cam2_thread.py, where `cam1_turn` and `cam2_turn` are a turn of `run` on
--     what the socket answers.
--   * Server.antt: server/api/repositories.py and the routes events.py, devices.py and health.py of
--     server/api/routes, where `post_event` is the ingest of an event.
--   * Errors.antt: shared/errors.py and the exceptions of Python that occur; Common.antt: helpers.
--
-- How the code corresponds: an object is a record, a method a function from record to record beside what
-- it returns; an exception is `err` in a `Result`, and what was written before it stays written. A lock
-- makes one step of what it covers. Bytes and words are native numbers with the wrap of the source
-- written out; a `to_bytes` that does not fit raises. A dictionary is an association list in insertion
-- order. Clocks are arguments. A float is a number of the parameter `Numbers`, of which no law is
-- assumed but where a theorem names one; SciPy's assignment, NumPy's arrays and Shapely's shapes are
-- parameters too, and an index out of range is `none`.
--
-- Bounds and fuel: `poll_loop` and `collect_loop` run on the number of cameras, which is the bound of
-- their `while`; the loops of `heapq` run on the length of the heap, which a position stays below;
-- `collect_requests` runs on one more than the requests that wait. No other loop of the model
-- needs fuel: a run is a list of events. Theorems that count with sequence numbers ask that a run is
-- shorter than the 64-bit word has room for.
--
-- Not modelled: the operating system (processes, signals, segments by name), OpenCV, NumPy, ONNX Runtime
-- and Shapely, drawing, encoding and the network. JSON text is a parameter `loads` with no assumption
-- but where a theorem names one. A box that the tracker makes from a mean is not checked again there:
-- Boxes is about its corners. The constructor of Phase2Runtime, the start and stop of threads, the windows
-- and databases of gpu/, the loader of configurations and the dashboard are not part of the library.
pub mod Common
pub mod Errors
pub mod Capture
pub mod SharedMemory
pub mod RoundRobin
pub mod Inference
pub mod Alert
pub mod Vision
pub mod Tracking
pub mod Evidence
pub mod Desktop
pub mod Server
pub mod Runtime
