-- ===== src/Inference/Models/Loading.antt =====
-- Loading a model more than once, and what the states of the records say.
use mathlib.Core.Path.{subst}
use computer_vision.Common.{
  ◌≡◌, refl, sym, ap, ◌∙◌, inl, inr, String, true, Option, none, some, [], ◌∷◌, arith, Dict, lookup,
  lookup-insert_self, contains, ◌==◌, text_key, if◌then◌else◌, Bool-cases, Option-cases,
}
use computer_vision.Errors.{Error, Result, ok, err}
use computer_vision.Inference.Models.{
  blank, ready, loading, ModelConfig, ModelRecord, ModelRegistry, loaded, write, started, built,
  load_new, load_known, load_record, load, backend_or_error, get_record, get, closed, close_records,
  close,
}

module _ {B : Type 0} where
  -- The model `name` is there, enabled and ready with the backend `b`.
  pub record Holds (s : ModelRegistry B) (name : String) (b : B) : Type 0 where
    pub entry : ModelRecord B
    pub found : lookup name s.records ≡ some entry
    pub enabled : entry.configuration.enabled ≡ true
    pub holds : loaded entry ≡ some b

  Holds-write :
      (s : ModelRegistry B) (name : String) (r : ModelRecord B) (b : B)
      → r.configuration.enabled ≡ true
      → Holds (write s name (record r { backend = some b; health = ready })) name b
  Holds-write s name r b e = record {
    entry = record r { backend = some b; health = ready };
    found = lookup-insert_self name _ s.records;
    enabled = e;
    holds = refl;
  }

  ok_injective : (c b : B) → ◌≡◌ {A = Result B} (ok c) (ok b) → c ≡ b
  ok_injective c b h = cc

  started-Holds :
      (s : ModelRegistry B) (name : String) (r : ModelRecord B) (c b : B) (text : Option String)
      → r.configuration.enabled ≡ true
      → (started s name r c text).1 ≡ ok b
      → Holds (started s name r c text).0 name b
  started-Holds s name r c b none e h =
      subst (λ x. Holds (started s name r c none).0 name x) (ok_injective c b h)
        (Holds-write s name r c e)
  started-Holds s name r c b (some text) e h = cc

  built-Holds :
      (s : ModelRegistry B) (name : String) (r : ModelRecord B) (start : B → Option String)
      (made : Result B) (b : B)
      → r.configuration.enabled ≡ true
      → (built s name r start made).1 ≡ ok b
      → Holds (built s name r start made).0 name b
  built-Holds s name r start (ok c) b e h = started-Holds s name r c b (start c) e h
  built-Holds s name r start (err x) b e h = cc

  load_new-Holds :
      (s : ModelRegistry B) (name : String) (r : ModelRecord B) (start : B → Option String)
      (factory : Option (ModelConfig → Result B)) (b : B)
      → r.configuration.enabled ≡ true
      → (load_new s name r start factory).1 ≡ ok b
      → Holds (load_new s name r start factory).0 name b
  load_new-Holds s name r start none b e h = cc
  load_new-Holds s name r start (some factory) b e h =
      built-Holds s name (record r { health = loading; detail = blank }) start
        (factory r.configuration) b e h

  load_known-Holds :
      (s : ModelRegistry B) (name : String) (start : B → Option String) (r : ModelRecord B)
      (now : Option B) (b : B)
      → lookup name s.records ≡ some r
      → r.configuration.enabled ≡ true
      → loaded r ≡ now
      → (load_known s name start r now).1 ≡ ok b
      → Holds (load_known s name start r now).0 name b
  load_known-Holds s name start r (some c) b found e l h = record {
    entry = r;
    found = found;
    enabled = e;
    holds = l ∙ ap some (ok_injective c b h);
  }
  load_known-Holds s name start r none b found e l h =
      load_new-Holds s name r start (lookup r.configuration.backend_name s.factories) b e h

  load_record-Holds :
      (s : ModelRegistry B) (name : String) (start : B → Option String)
      (entry : Option (ModelRecord B)) (b : B)
      → lookup name s.records ≡ entry
      → (load_record s name start entry).1 ≡ ok b
      → Holds (load_record s name start entry).0 name b
  load_record-Holds s name start none b found h = cc
  load_record-Holds s name start (some r) b found h = elim (Bool-cases r.configuration.enabled) [
    | inl e ↦
        let here : load_record s name start (some r) ≡ load_known s name start r (loaded r) =
          ground arith in
        rw here
          (load_known-Holds s name start r (loaded r) b found e refl (sym (ap (λ x. x.1) here) ∙ h))
    | inr e ↦
        let here : load_record s name start (some r) ≡ (s, err Error.model_unavailable_error) =
          ground arith in
        let no : ◌≡◌ {A = Result B} (err Error.model_unavailable_error) (ok b) =
          sym (ap (λ x. x.1) here) ∙ h in
        cc
  ]

  load-Holds :
      (start : B → Option String) (s : ModelRegistry B) (name : String) (b : B)
      → (load start s name).1 ≡ ok b
      → Holds (load start s name).0 name b
  unfolding load
  load-Holds start s name b h = load_record-Holds s name start (lookup name s.records) b refl h

  Holds-get : (s : ModelRegistry B) (name : String) (b : B) → Holds s name b → get s name ≡ ok b
  unfolding get
  Holds-get s name b h = ap get_record h.found ∙ ap backend_or_error h.holds

  Holds-load :
      (start : B → Option String) (s : ModelRegistry B) (name : String) (b : B)
      → Holds s name b
      → load start s name ≡ (s, ok b)
  unfolding load
  Holds-load start s name b h = rw (h.found, h.enabled, h.holds) refl

  -- Once a model has been loaded, `get` returns its backend, and loading it again, whatever a backend
  -- would do on starting by then, returns the same backend and changes nothing: no second backend is
  -- made.
  pub load_once :
      (start again : B → Option String) (s : ModelRegistry B) (name : String) (b : B)
      → (load start s name).1 ≡ ok b
      → (get (load start s name).0 name ≡ ok b)
        × (load again (load start s name).0 name ≡ ((load start s name).0, ok b))
  load_once start again s name b h =
      let held = load-Holds start s name b h in
      (
        Holds-get (load start s name).0 name b held,
        Holds-load again (load start s name).0 name b held,
      )

  loaded-closed : (r : ModelRecord B) → loaded (closed r) ≡ none
  loaded-closed r = elim (Bool-cases r.configuration.enabled) [
    | inl e ↦ rw e refl
    | inr e ↦ rw e refl
  ]

  abbrev closed_option : Option (ModelRecord B) → Option (ModelRecord B)
  closed_option none = none
  closed_option (some r) = some (closed r)

  lookup-close_records :
      (name : String) (d : Dict String (ModelRecord B))
      → lookup name (close_records d) ≡ closed_option (lookup name d)
  unfolding lookup close_records
  lookup-close_records name [] = refl
  lookup-close_records name ((k, r) ∷ d) = elim (Bool-cases (k == name)) [
    | inl same ↦ rw same refl
    | inr other ↦ rw other (lookup-close_records name d)
  ]

  -- After `close` no model is handed out, whatever was loaded before: `get` raises for every name, and
  -- tells an unknown one from one that is not ready.
  pub get-close :
      (s : ModelRegistry B) (name : String)
      → get (close s) name
        ≡ err (if contains name s.records then Error.model_unavailable_error else Error.key_error)
  unfolding get close contains
  get-close s name =
      ap get_record (lookup-close_records name s.records)
      ∙ elim (Option-cases (lookup name s.records)) [
        | inl unknown ↦ rw (unknown, contains) refl
        | inr (r, known) ↦ rw (known, contains) (ap backend_or_error (loaded-closed r))
      ]
