-- ===== src/Server.antt =====
-- server/api: the repository in memory (repositories.py) and the routes on it (routes/events.py,
-- devices.py, health.py). An event's id is its text; what else an event, a heartbeat, the metrics and a
-- configuration hold are parameters, since they are only kept. An `HTTPException` is a status. Pydantic
-- and FastAPI, which parse the requests, are left out.
pub mod Ingest
mod Examples
use computer_vision.Common.{
  ℕ, String, Bool, true, false, not, Option, none, some, List, [], ◌∷◌, Dict, lookup, insert,
  contains, ◌==◌, text_key, if◌then◌else◌,
}

pub record SafetyEvent (Content : Type 0) : Type 0 where
  pub event_id : String
  pub content : Content

-- What a route answers: a status, and a body where there is one.
pub record IngestResponse : Type 0 where
  pub status : ℕ
  pub event_id : String
  pub accepted : Bool
  pub duplicate : Bool

pub data Reply : Type 0 where
  http_error : ℕ → Reply
  answered : IngestResponse → Reply

abbrev pub is_mismatch : Option String → String → Bool
is_mismatch none id = false
is_mismatch (some key) id = not (key == id)

abbrev pub ingest_response : String → Bool → IngestResponse
ingest_response id accepted = record {
  status = if accepted then 201 else 200;
  event_id = id;
  accepted = accepted;
  duplicate = not accepted;
}

module _ (Content Heartbeat Metrics Configuration : Type 0) where
  pub record Repository : Type 0 where
    pub events : Dict String (SafetyEvent Content)
    pub heartbeats : Dict String Heartbeat
    pub metrics : Dict String Metrics
    pub configurations : Dict String Configuration

  abbrev pub make_repository : Dict String Configuration → Repository
  make_repository configurations = record {
    events = [];
    heartbeats = [];
    metrics = [];
    configurations = configurations;
  }

  unfoldable pub ingest : SafetyEvent Content → Repository → Repository × Bool
  ingest event s =
      if contains event.event_id s.events
      then (s, false)
      else (record s { events = insert event.event_id event s.events }, true)

  unfoldable pub save_heartbeat : String → Heartbeat → Repository → Repository
  save_heartbeat device_id heartbeat s = record s {
    heartbeats = insert device_id heartbeat s.heartbeats;
  }

  unfoldable pub save_metrics : String → Metrics → Repository → Repository
  save_metrics device_id m s = record s { metrics = insert device_id m s.metrics }

  abbrev pub stored_configuration : String → Repository → Option Configuration
  stored_configuration device_id s = lookup device_id s.configurations

  abbrev pub healthy : Repository → Bool
  healthy s = true

  -- `POST /events`, whose `HTTPException` is `http_error`.
  unfoldable pub post_event : SafetyEvent Content → Option String → Repository → Repository × Reply
  post_event event idempotency_key s =
      if is_mismatch idempotency_key event.event_id
      then (s, http_error 409)
      else let (s', accepted) = ingest event s in
        (s', answered (ingest_response event.event_id accepted))

  -- `GET /devices/{device_id}/configuration`, where 404 is `none`.
  abbrev pub get_configuration : String → Repository → Option Configuration
  get_configuration device_id s = stored_configuration device_id s

  -- `GET /health/ready`, as its status.
  abbrev pub ready : Repository → ℕ
  ready s = if not (healthy s) then 503 else 200
