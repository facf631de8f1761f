-- ===== src/Inference/Models/Examples.antt =====
-- A registry of two models: a run, and the theorems of this folder applied.
use computer_vision.Common.{
  ℕ, ◌≡◌, refl, String, true, false, Option, none, some, [], ◌∷◌, lookup, insert, text_key,
}
use computer_vision.Errors.{Error, Result, ok, err}
use computer_vision.Inference.Models.{
  ModelRole, ModelConfig, disabled, unavailable, blank, ModelRegistry, load, get,
}
use computer_vision.Inference.Models.Records.{
  make_registry, load_each, load_enabled, names_for_role,
}

-- A backend is its number.
abbrev registry : ModelRegistry ℕ
registry = record {
  factories = ("onnxruntime", λ _. ok 7) ∷ [];
  records =
      (
        "pose",
        record {
          configuration = record {
            name = "pose";
            role = ModelRole.pose;
            provider = "CPU";
            backend_name = "onnxruntime";
            enabled = true;
          };
          health = unavailable;
          detail = blank;
          backend = none;
        },
      )
      ∷ (
        "fire",
        record {
          configuration = record {
            name = "fire";
            role = ModelRole.detector;
            provider = "CPU";
            backend_name = "onnxruntime";
            enabled = false;
          };
          health = disabled;
          detail = blank;
          backend = none;
        },
      )
      ∷ [];
}

abbrev starts : ℕ → Option String
starts _ = none

abbrev crashes : ℕ → Option String
crashes _ = some "no GPU"

load-disabled : (load starts registry "fire").1 ≡ err Error.model_unavailable_error
unfolding load lookup
load-disabled = refl

load-crashes : get (load crashes registry "pose").0 "pose" ≡ err Error.model_unavailable_error
unfolding load get lookup insert
load-crashes = refl

-- One model to a role, and the names of a registry made of configurations that repeat a name.
pose_names : names_for_role registry ModelRole.pose ≡ "pose" ∷ []
pose_names = refl

abbrev pose_model : ModelConfig
pose_model = record {
  name = "pose";
  role = ModelRole.pose;
  provider = "CPU";
  backend_name = "onnxruntime";
  enabled = true;
}

repeated_name :
    ◌≡◌ {A = Result (ModelRegistry ℕ)}
      (make_registry (pose_model ∷ pose_model ∷ []) [])
      (err Error.value_error)
unfolding make_registry insert
repeated_name = refl

all_loaded : get (load_enabled starts registry).0 "pose" ≡ ok 7
unfolding load_each load get lookup insert
all_loaded = refl
