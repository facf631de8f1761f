-- ===== src/Desktop/Alerts/Fired.antt =====
-- What a call of `process_violations` leaves in the database, with the callback and in its result.
use mathlib.Core.Path.{subst}
use mathlib.Core.List.{append_assoc, append-nil}
use computer_vision.Common.{
  ◌≡◌, refl, sym, ap, ◌∙◌, ℕ, String, Bool, true, false, Option, none, some, List, [], ◌∷◌, ◌++◌,
  map, if◌then◌else◌,
}
use computer_vision.Errors.{Error, Result, ok, err}
use computer_vision.Desktop.Alerts.{
  Alert, AlertKey, Answers, Row, AlertManager, CooldownManager, can_alert, alert_key, row_of,
  notified, saved_row, fire, after_cooldown, process_one, add_id, join, process_violations,
}

-- The rows of the alerts that pass, up to the first exception, and that exception.
abbrev pub Expected : Type 0 → Type 0
Expected F = List (Row F) × Option Error

abbrev pub allowed : Bool → ℕ → AlertKey → CooldownManager → CooldownManager × Bool
allowed true now key c = (c, true)
allowed false now key c = can_alert now key c

notified-ok :
    (b : Bool) (c : Option Error) (id : String) → c ≡ none → notified b c id ≡ ok (some id)
notified-ok true c id e = rw e refl
notified-ok false c id e = refl

module _ {F : Type 0} where
  -- A refused row adds nothing and ends the call. A callback that raises ends it with the row saved.
  abbrev pub expected_one :
      Bool → Result String → Option Error → (String → Row F) → Expected F → Expected F
  expected_one has_callback (err e) c row later = ([], some e)
  expected_one true (ok id) (some e) row later = (row id ∷ [], some e)
  expected_one true (ok id) none row later = (row id ∷ later.0, later.1)
  expected_one false (ok id) c row later = (row id ∷ later.0, later.1)

  abbrev pub expected :
      String → Bool → Bool → Bool → List (Alert F × Answers) → CooldownManager → Expected F
  expected camera_id has_frame force has_callback [] c = ([], none)
  expected camera_id has_frame force has_callback (a ∷ rest) c =
      let p = allowed force a.1.now (alert_key camera_id a.0) c in
      let later = expected camera_id has_frame force has_callback rest p.0 in
      if p.1
      then expected_one has_callback a.1.saved a.1.callback_error
          (row_of camera_id has_frame a.0 a.1.thumbnail_path) later
      else later

  abbrev pub row_ids : List (Row F) → List String
  row_ids = map (λ r. r.id)

  abbrev pub reported : Expected F → Result (List String)
  reported (rows, none) = ok (row_ids rows)
  reported (rows, some e) = err e

  -- The rows that are added, the calls of the callback, and the answer.
  pub record Fired (s : AlertManager F) (t : Expected F) (o : AlertManager F × Result (List String))
      : Type 0 where
    pub added : o.0.rows ≡ s.rows ++ t.0
    pub told : o.0.calls ≡ (if s.has_callback then s.calls ++ t.0 else s.calls)
    pub answered : o.1 ≡ reported t

  told_nothing : (b : Bool) (calls : List (Row F)) → calls ≡ (if b then calls ++ [] else calls)
  told_nothing true calls = sym (append-nil calls)
  told_nothing false calls = refl

  told_both :
      (b : Bool) (calls last : List (Row F)) (row : Row F) (rest : List (Row F))
      → last ≡ (
          if b
          then (if b then calls ++ row ∷ [] else calls) ++ rest
          else (if b then calls ++ row ∷ [] else calls))
      → last ≡ (if b then calls ++ row ∷ rest else calls)
  told_both true calls last row rest e = e ∙ append_assoc calls (row ∷ []) rest
  told_both false calls last row rest e = e

  reported-add_id :
      (row : Row F) (t : Expected F) (r : Result (List String))
      → r ≡ reported t
      → add_id (some row.id) r ≡ reported (row ∷ t.0, t.1)
  reported-add_id row (rows, none) r e = rw e refl
  reported-add_id row (rows, some x) r e = rw e refl

  -- One row that is saved, before what the later alerts add.
  Fired-row :
      (s : AlertManager F) (row : Row F) (t : Expected F)
      (o : AlertManager F × Result (List String))
      → Fired
          (record s {
            rows = s.rows ++ row ∷ [];
            calls = if s.has_callback then s.calls ++ row ∷ [] else s.calls;
          })
          t
          o
      → Fired s (row ∷ t.0, t.1) (o.0, add_id (some row.id) o.1)
  Fired-row s row t o h = record {
    added = h.added ∙ append_assoc s.rows (row ∷ []) t.0;
    told = told_both s.has_callback s.calls o.0.calls row t.0 h.told;
    answered = reported-add_id row t o.1 h.answered;
  }

  module _ (s : AlertManager F) (t : Expected F)
      (others : AlertManager F → AlertManager F × Result (List String))
      (h : (rows calls : List (Row F))
        → Fired
            (record s { rows = rows; calls = calls })
            t
            (others (record s { rows = rows; calls = calls }))) where
    -- The manager with one row saved and told.
    abbrev saved_with : Row F → AlertManager F
    saved_with row = record s {
      rows = s.rows ++ row ∷ [];
      calls = if s.has_callback then s.calls ++ row ∷ [] else s.calls;
    }

    Fired-answer :
        (row : Row F) (answer : Result (Option String))
        → answer ≡ ok (some row.id)
        → Fired s (row ∷ t.0, t.1) (join (saved_with row, answer) (others (saved_with row)))
    Fired-answer row answer e =
        subst (λ r. Fired s (row ∷ t.0, t.1) (join (saved_with row, r) (others (saved_with row))))
          (sym e) (Fired-row s row t (others (saved_with row)) (h _ _))

    saved_row-Fired :
        (b : Bool) (row : String → Row F) (c : Option Error) (saved : Result String)
        → ((id : String) → (row id).id ≡ id)
        → s.has_callback ≡ b
        → Fired s
            (expected_one b saved c row t)
            (join (saved_row s row c saved) (others (saved_row s row c saved).0))
    saved_row-Fired b row c (err e) named same = record {
      added = sym (append-nil s.rows);
      told = told_nothing s.has_callback s.calls;
      answered = refl;
    }
    saved_row-Fired true row (some e) (ok id) named same =
        rw same (record { added = refl; told = refl; answered = refl })
    saved_row-Fired true row none (ok id) named same =
        Fired-answer (row id) (notified s.has_callback none id)
          (notified-ok s.has_callback none id refl ∙ ap (λ k. ok (some k)) (sym (named id)))
    saved_row-Fired false row c (ok id) named same =
        Fired-answer (row id) (notified s.has_callback c id)
          (rw same refl ∙ ap (λ k. ok (some k)) (sym (named id)))

  after_cooldown-Fired :
      (camera_id : String) (has_frame force : Bool) (a : Alert F) (w : Answers)
      (rest : List (Alert F × Answers)) (s : AlertManager F) (p : CooldownManager × Bool)
      → ((s' : AlertManager F)
          → Fired s'
              (expected camera_id has_frame force s'.has_callback rest s'.cooldown)
              (process_violations camera_id has_frame force rest s'))
      → let one = after_cooldown camera_id has_frame a w s p in
        let later = expected camera_id has_frame force s.has_callback rest p.0 in
        Fired s
          (if p.1
            then expected_one s.has_callback w.saved w.callback_error
                (row_of camera_id has_frame a w.thumbnail_path)
                later
            else later)
          (join one (process_violations camera_id has_frame force rest one.0))
  unfolding fire
  after_cooldown-Fired camera_id has_frame force a w rest s (c, false) h =
      let k = h (record s { cooldown = c }) in
      record { added = k.added; told = k.told; answered = k.answered }
  after_cooldown-Fired camera_id has_frame force a w rest s (c, true) h =
      let s' = record s { cooldown = c } in
      let k =
        saved_row-Fired s' (expected camera_id has_frame force s.has_callback rest c)
          (process_violations camera_id has_frame force rest)
          (λ rows calls. h (record s' { rows = rows; calls = calls })) s.has_callback
          (row_of camera_id has_frame a w.thumbnail_path) w.callback_error w.saved (λ id. refl)
          refl in
      record { added = k.added; told = k.told; answered = k.answered }

  -- A call adds the rows of the alerts that pass the cool-down or are forced, in their order, up to the first
  -- exception: a row that the database refuses, which is not added, or a callback that raises, whose row
  -- stays. If there is a callback it was called for each row that was added. The ids of the rows are the
  -- result, or the exception is, and then the rows before it stay.
  pub process_violations-Fired :
      (camera_id : String) (has_frame force : Bool) (alerts : List (Alert F × Answers))
      (s : AlertManager F)
      → Fired s
          (expected camera_id has_frame force s.has_callback alerts s.cooldown)
          (process_violations camera_id has_frame force alerts s)
  unfolding process_violations process_one
  process_violations-Fired camera_id has_frame force [] s = record {
    added = sym (append-nil s.rows);
    told = told_nothing s.has_callback s.calls;
    answered = refl;
  }
  process_violations-Fired camera_id has_frame true (a ∷ rest) s =
      after_cooldown-Fired camera_id has_frame true a.0 a.1 rest s (s.cooldown, true)
        (process_violations-Fired camera_id has_frame true rest)
  process_violations-Fired camera_id has_frame false (a ∷ rest) s =
      after_cooldown-Fired camera_id has_frame false a.0 a.1 rest s
        (can_alert a.1.now (alert_key camera_id a.0) s.cooldown)
        (process_violations-Fired camera_id has_frame false rest)
