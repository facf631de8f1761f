-- ===== src/Alert/Pipeline/Dispatched.antt =====
-- What the alert pipeline reports beside what the database took, and what a failed dispatch leaves.
use mathlib.Core.List.{append_assoc, append-nil}
use computer_vision.Common.{
  ℕ, ◌≡◌, refl, sym, ap, ◌∙◌, String, Bool, true, false, Option, none, some, List, [], ◌∷◌, ◌++◌,
  length, text_key, pair_key,
}
use computer_vision.Errors.{Error, Result, ok, err}
use computer_vision.Alert.Cooldown.{CooldownManager, should_alert}
use computer_vision.Alert.Roi.{Geometry, RoiMatcher, is_in_roi}
use computer_vision.Alert.Pipeline.{
  Violation, dispatch, Moment, AlertPipeline, dispatched_one, after_cooldown, after_roi, handle,
  add_dispatched, process,
}

module _ (g : Geometry) where
  -- What one turn does to the rows.
  data Handled (p : AlertPipeline g)
      (r : AlertPipeline g × Result (Option (Violation g.Coordinate))) : Type 0 where
    fails : (e : Error) → r.1 ≡ err e → r.0.dispatcher.rows ≡ p.dispatcher.rows → Handled p r
    passes :
        (one : Option (Violation g.Coordinate))
        → r.1 ≡ ok one
        → r.0.dispatcher.rows ≡ add_dispatched g p.dispatcher.rows one
        → Handled p r

  dispatched_one-Handled :
      (p : AlertPipeline g) (c : CooldownManager) (v : Violation g.Coordinate) (path : String)
      (inserted : Result ℕ)
      → Handled p
          (dispatched_one g (record p { cooldown = c }) (dispatch p.dispatcher v path inserted))
  unfolding dispatch
  dispatched_one-Handled p c v path (ok id) = passes (some _) refl refl
  dispatched_one-Handled p c v path (err e) = fails e refl refl

  after_cooldown-Handled :
      (p : AlertPipeline g) (v : Violation g.Coordinate) (m : Moment) (c : CooldownManager × Bool)
      → Handled p (after_cooldown g p v m c)
  after_cooldown-Handled p v m (c, true) = dispatched_one-Handled p c v m.thumbnail_path m.inserted
  after_cooldown-Handled p v m (c, false) = passes none refl refl

  after_roi-Handled :
      (p : AlertPipeline g) (v : Violation g.Coordinate) (m : Moment)
      (r : RoiMatcher g × Result Bool)
      → Handled p (after_roi g p v m r)
  after_roi-Handled p v m (roi, err e) = fails e refl refl
  after_roi-Handled p v m (roi, ok false) = passes none refl refl
  after_roi-Handled p v m (roi, ok true) =
      elim (after_cooldown-Handled (record p { roi = roi }) v m
        (should_alert p.cooldown v.camera_id v.violation_type m.now)) [
          | fails e result rows ↦ fails e result rows
          | passes one result rows ↦ passes one result rows
        ]

  handle-Handled :
      (p : AlertPipeline g) (v : Violation g.Coordinate) (m : Moment) → Handled p (handle g p v m)
  unfolding handle
  handle-Handled p v m = after_roi-Handled p v m (is_in_roi g m.get_roi p.roi v.camera_id v.bbox)

  -- The violations that the turns dispatch up to the first one that raises, and what that one raises.
  abbrev pub Taken : Type 0
  Taken = List (Violation g.Coordinate) × Option Error

  abbrev pub add_first : Option (Violation g.Coordinate) → Taken → Taken
  add_first none t = t
  add_first (some v) (vs, e) = (v ∷ vs, e)

  abbrev pub taken_by : Result (Option (Violation g.Coordinate)) → Taken → Taken
  taken_by (err e) rest = ([], some e)
  taken_by (ok one) rest = add_first one rest

  abbrev pub taken : AlertPipeline g → (ℕ → Moment) → List (Violation g.Coordinate) → Taken
  taken p moments [] = ([], none)
  taken p moments (v ∷ vs) =
      taken_by (handle g p v (moments (length vs))).1
        (taken (handle g p v (moments (length vs))).0 moments vs)

  abbrev pub reported :
      List (Violation g.Coordinate) → Option Error → Result (List (Violation g.Coordinate))
  reported vs none = ok vs
  reported vs (some e) = err e

  -- The rows and the answer that follow from what the turns dispatch.
  pub record Recorded (p : AlertPipeline g) (dispatched : List (Violation g.Coordinate)) (t : Taken)
      (r : AlertPipeline g × Result (List (Violation g.Coordinate))) : Type 0 where
    pub rows : r.0.dispatcher.rows ≡ p.dispatcher.rows ++ t.0
    pub answered : r.1 ≡ reported (dispatched ++ t.0) t.1

  process-fails :
      (p : AlertPipeline g) (moments : ℕ → Moment) (v : Violation g.Coordinate)
      (vs dispatched : List (Violation g.Coordinate)) (e : Error)
      → (handle g p v (moments (length vs))).1 ≡ err e
      → process g p moments (v ∷ vs) dispatched ≡ ((handle g p v (moments (length vs))).0, err e)
  unfolding process
  process-fails p moments v vs dispatched e h = rw (h, process) refl

  process-passes :
      (p : AlertPipeline g) (moments : ℕ → Moment) (v : Violation g.Coordinate)
      (vs dispatched : List (Violation g.Coordinate)) (one : Option (Violation g.Coordinate))
      → (handle g p v (moments (length vs))).1 ≡ ok one
      → process g p moments (v ∷ vs) dispatched
        ≡ process g
            (handle g p v (moments (length vs))).0
            moments
            vs
            (add_dispatched g dispatched one)
  unfolding process
  process-passes p moments v vs dispatched one h = rw (h, process) refl

  -- The rest of the loop, after a turn that dispatched `one` violation or none.
  Recorded-passes :
      (p q : AlertPipeline g) (dispatched : List (Violation g.Coordinate))
      (one : Option (Violation g.Coordinate)) (t : Taken)
      (r : AlertPipeline g × Result (List (Violation g.Coordinate)))
      → q.dispatcher.rows ≡ add_dispatched g p.dispatcher.rows one
      → Recorded q (add_dispatched g dispatched one) t r
      → Recorded p dispatched (add_first one t) r
  Recorded-passes p q dispatched none t r rows rest = record {
    rows = rest.rows ∙ ap (λ o. o ++ t.0) rows;
    answered = rest.answered;
  }
  Recorded-passes p q dispatched (some v) t r rows rest = record {
    rows = rest.rows ∙ ap (λ o. o ++ t.0) rows ∙ append_assoc p.dispatcher.rows (v ∷ []) t.0;
    answered = rest.answered ∙ ap (λ vs. reported vs t.1) (append_assoc dispatched (v ∷ []) t.0);
  }

  -- The database takes, at the end of its rows and in order, exactly what the turns dispatch up to the
  -- first turn that raises. If none raises, `process` reports those after the ones that were dispatched
  -- before; if one raises, so does `process`, no later violation is taken, and the rows that were taken
  -- stay.
  pub process-Recorded :
      (p : AlertPipeline g) (moments : ℕ → Moment)
      (violations dispatched : List (Violation g.Coordinate))
      → Recorded p dispatched
          (taken p moments violations)
          (process g p moments violations dispatched)
  process-Recorded p moments [] dispatched =
      unfold process in
      record {
        rows = sym (append-nil p.dispatcher.rows);
        answered = ap ok (sym (append-nil dispatched));
      }
  process-Recorded p moments (v ∷ vs) dispatched =
      let m = moments (length vs) in
      let q = (handle g p v m).0 in
      elim (handle-Handled p v m) [
        | fails e result rows ↦
            rw (process-fails p moments v vs dispatched e result, taken, result)
              (record { rows = rows ∙ sym (append-nil p.dispatcher.rows); answered = refl })
        | passes one result rows ↦
            rw (process-passes p moments v vs dispatched one result, taken, result)
              (Recorded-passes p q dispatched one (taken q moments vs) _ rows
                (process-Recorded q moments vs (add_dispatched g dispatched one)))
      ]
