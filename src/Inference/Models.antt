-- ===== src/Inference/Models.antt =====
-- `ModelRegistry` of edge_runtime/inference/model_registry.py. Each method holds the lock. A backend and
-- its factories are not modelled: a factory answers a backend or raises, and `start` is what
-- `backend.load()` does, where an error carries the text of the exception. Closing a backend does not
-- raise here.
pub mod Loading
pub mod Records
mod Examples
use mathlib.Core.Bool.{◌&&◌}
use computer_vision.Common.{
  ℕ, String, Bool, true, false, Option, none, some, List, [], ◌∷◌, map, not, Dict, lookup, insert,
  text_key, if◌then◌else◌,
}
use computer_vision.Errors.{Error, Result, ok, err}

pub data ModelHealth : Type 0 where
  disabled loading ready degraded unavailable circuit_open : ModelHealth

pub data ModelRole : Type 0 where
  detector ppe pose : ModelRole

pub record ModelConfig : Type 0 where
  pub name : String
  pub role : ModelRole
  pub provider : String
  pub backend_name : String
  pub enabled : Bool

-- The texts of `detail`: empty, `unknown backend: ...`, or that of an exception.
pub data Detail : Type 0 where
  blank : Detail
  unknown_backend text_of : String → Detail

pub record ModelRecord (B : Type 0) : Type 0 where
  pub configuration : ModelConfig
  pub health : ModelHealth
  pub detail : Detail
  pub backend : Option B

pub record ModelRegistry (B : Type 0) : Type 0 where
  pub factories : Dict String (ModelConfig → Result B)
  pub records : Dict String (ModelRecord B)

module _ {B : Type 0} where
  -- `record.health == READY and record.backend is not None`
  abbrev pub loaded : ModelRecord B → Option B
  loaded r = elim r.health [
    | ready ↦ r.backend
    | disabled ↦ none
    | loading ↦ none
    | degraded ↦ none
    | unavailable ↦ none
    | circuit_open ↦ none
  ]

  -- `_ModelRecord` is shared by reference: what a method writes to it stays in the registry.
  abbrev pub write : ModelRegistry B → String → ModelRecord B → ModelRegistry B
  write s name r = record s { records = insert name r s.records }

  -- The `try` around `backend.load()`.
  abbrev pub started :
      ModelRegistry B → String → ModelRecord B → B → Option String → ModelRegistry B × Result B
  started s name r b none = (write s name (record r { backend = some b; health = ready }), ok b)
  started s name r b (some text) = (
    write s name (record r { health = unavailable; detail = text_of text; backend = none }),
    err Error.model_unavailable_error,
  )

  abbrev pub built :
      ModelRegistry B
      → String
      → ModelRecord B
      → (B → Option String)
      → Result B
      → ModelRegistry B × Result B
  built s name r start (ok b) = started s name r b (start b)
  built s name r start (err e) = (write s name r, err e)

  -- From the look at the factories on, for an enabled model that is not ready.
  abbrev pub load_new :
      ModelRegistry B
      → String
      → ModelRecord B
      → (B → Option String)
      → Option (ModelConfig → Result B)
      → ModelRegistry B × Result B
  load_new s name r start none = (
    write s name
        (record r { health = unavailable; detail = unknown_backend r.configuration.backend_name }),
    err Error.model_unavailable_error,
  )
  load_new s name r start (some factory) =
      built s name (record r { health = loading; detail = blank }) start (factory r.configuration)

  abbrev pub load_known :
      ModelRegistry B
      → String
      → (B → Option String)
      → ModelRecord B
      → Option B
      → ModelRegistry B × Result B
  load_known s name start r (some b) = (s, ok b)
  load_known s name start r none =
      load_new s name r start (lookup r.configuration.backend_name s.factories)

  abbrev pub load_record :
      ModelRegistry B
      → String
      → (B → Option String)
      → Option (ModelRecord B)
      → ModelRegistry B × Result B
  load_record s name start none = (s, err Error.key_error)
  load_record s name start (some r) =
      if r.configuration.enabled
      then load_known s name start r (loaded r)
      else (s, err Error.model_unavailable_error)

  unfoldable pub load : (B → Option String) → ModelRegistry B → String → ModelRegistry B × Result B
  load start s name = load_record s name start (lookup name s.records)

  abbrev pub backend_or_error : Option B → Result B
  backend_or_error none = err Error.model_unavailable_error
  backend_or_error (some b) = ok b

  abbrev pub get_record : Option (ModelRecord B) → Result B
  get_record none = err Error.key_error
  get_record (some r) = backend_or_error (loaded r)

  unfoldable pub get : ModelRegistry B → String → Result B
  get s name = get_record (lookup name s.records)

  abbrev pub closed : ModelRecord B → ModelRecord B
  closed r = record r {
    backend = none;
    health = if r.configuration.enabled then unavailable else disabled;
  }

  unfoldable pub close_records : Dict String (ModelRecord B) → Dict String (ModelRecord B)
  close_records [] = []
  close_records ((name, r) ∷ records) = (name, closed r) ∷ close_records records

  unfoldable pub close : ModelRegistry B → ModelRegistry B
  close s = record s { records = close_records s.records }
