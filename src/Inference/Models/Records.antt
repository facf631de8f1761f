-- ===== src/Inference/Models/Records.antt =====
-- The rest of `ModelRegistry`: its constructor, `load_enabled`, and the methods that only read.
use computer_vision.Common.{
  String, Bool, true, false, Option, none, some, List, [], ◌∷◌, map, length, eqb, Dict, lookup,
  insert, text_key, if◌then◌else◌,
}
use computer_vision.Errors.{Error, Result, ok, err}
use computer_vision.Inference.Models.{
  ModelHealth, disabled, unavailable, ModelRole, ModelConfig, Detail, blank, ModelRecord,
  ModelRegistry, load,
}

abbrev pub is_role : ModelRole → ModelRole → Bool
is_role ModelRole.detector ModelRole.detector = true
is_role ModelRole.ppe ModelRole.ppe = true
is_role ModelRole.pose ModelRole.pose = true
is_role _ _ = false

pub record ModelStatus : Type 0 where
  pub name : String
  pub health : ModelHealth
  pub provider : String
  pub detail : Detail

module _ {B : Type 0} where
  abbrev pub make_record : ModelConfig → ModelRecord B
  make_record c = record {
    configuration = c;
    health = if c.enabled then unavailable else disabled;
    detail = blank;
    backend = none;
  }

  -- The dictionary, where a later configuration of a name replaces an earlier one.
  abbrev pub add_records :
      List ModelConfig → Dict String (ModelRecord B) → Dict String (ModelRecord B)
  add_records [] records = records
  add_records (c ∷ cs) records = add_records cs (insert c.name (make_record c) records)

  -- `__init__`, on all factories; a name that comes twice is a `ValueError`.
  unfoldable pub make_registry :
      List ModelConfig → Dict String (ModelConfig → Result B) → Result (ModelRegistry B)
  make_registry configurations factories =
      let records = add_records configurations [] in
      if eqb (length records) (length configurations)
      then ok (record { factories = factories; records = records })
      else err Error.value_error

  abbrev pub load_next :
      ModelRegistry B × Result B
      → (ModelRegistry B → ModelRegistry B × Result (Unit {0}))
      → ModelRegistry B × Result (Unit {0})
  load_next (s, ok b) rest = rest s
  load_next (s, err e) rest = (s, err e)

  -- The loop of `load_enabled`, which ends at the first model that raises.
  unfoldable pub load_each :
      (B → Option String)
      → Dict String (ModelRecord B)
      → ModelRegistry B
      → ModelRegistry B × Result (Unit {0})
  load_each start [] s = (s, ok tt)
  load_each start ((name, r) ∷ records) s =
      if r.configuration.enabled
      then load_next (load start s name) (λ s'. load_each start records s')
      else load_each start records s

  abbrev pub load_enabled :
      (B → Option String) → ModelRegistry B → ModelRegistry B × Result (Unit {0})
  load_enabled start s = load_each start s.records s

  abbrev pub configuration_of : Option (ModelRecord B) → Result ModelConfig
  configuration_of none = err Error.key_error
  configuration_of (some r) = ok r.configuration

  abbrev pub configuration : ModelRegistry B → String → Result ModelConfig
  configuration s name = configuration_of (lookup name s.records)

  abbrev pub names_of : ModelRole → Dict String (ModelRecord B) → List String
  names_of role [] = []
  names_of role ((name, r) ∷ records) =
      if is_role r.configuration.role role
      then if r.configuration.enabled then name ∷ names_of role records else names_of role records
      else names_of role records

  abbrev pub names_for_role : ModelRegistry B → ModelRole → List String
  names_for_role s role = names_of role s.records

  abbrev pub statuses : ModelRegistry B → List ModelStatus
  statuses s =
      map
        (λ entry. record {
          name = entry.0;
          health = entry.1.health;
          provider = entry.1.configuration.provider;
          detail = entry.1.detail;
        })
        s.records
