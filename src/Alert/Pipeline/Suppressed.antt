-- ===== src/Alert/Pipeline/Suppressed.antt =====
-- An alert whose dispatch failed: the cool-down has begun before the dispatch.
use computer_vision.Common.{
  ℕ, ◌+◌, ◌<◌, ◌≡◌, refl, String, Bool, true, false, some, arith, lookup, lookup-insert_self,
  text_key, pair_key,
}
use computer_vision.Errors.{Error, Result, ok, err}
use computer_vision.Alert.Cooldown.{CooldownManager, should_alert}
use computer_vision.Alert.Cooldown.Spacing.{should_alert_early}
use computer_vision.Alert.Roi.{Geometry, RoiMatcher, is_in_roi}
use computer_vision.Alert.Pipeline.{
  Violation, dispatch, Moment, AlertPipeline, after_cooldown, after_roi, handle,
}

should_alert_begins :
    (s : CooldownManager) (c t : String) (now : ℕ)
    → (should_alert s c t now).1 ≡ true
    → (lookup (c, t) (should_alert s c t now).0.last_alert ≡ some now)
      × ((should_alert s c t now).0.cooldown ≡ s.cooldown)
unfolding should_alert
should_alert_begins s c t now e =
    (ground (arith, lookup-insert_self (c, t) now s.last_alert), ground arith)

module _ (g : Geometry) where
  after_cooldown_fails :
      (p : AlertPipeline g) (v : Violation g.Coordinate) (m : Moment) (c : CooldownManager × Bool)
      (e : Error)
      → c.1 ≡ true
      → m.inserted ≡ err e
      → after_cooldown g p v m c ≡ (record p { cooldown = c.0 }, err e)
  unfolding dispatch
  after_cooldown_fails p v m (c, alert) e fires failed = rw (fires, failed) refl

  after_roi_denied :
      (p : AlertPipeline g) (v : Violation g.Coordinate) (m : Moment)
      (r : RoiMatcher g × Result Bool)
      → should_alert p.cooldown v.camera_id v.violation_type m.now ≡ (p.cooldown, false)
      → (after_roi g p v m r).0.dispatcher.rows ≡ p.dispatcher.rows
  after_roi_denied p v m (roi, err e) denied = refl
  after_roi_denied p v m (roi, ok false) denied = refl
  after_roi_denied p v m (roi, ok true) denied = rw denied refl

  after_roi_fails :
      (p : AlertPipeline g) (v : Violation g.Coordinate) (m : Moment)
      (r : RoiMatcher g × Result Bool) (e : Error)
      → r.1 ≡ ok true
      → (should_alert p.cooldown v.camera_id v.violation_type m.now).1 ≡ true
      → m.inserted ≡ err e
      → after_roi g p v m r ≡ (
        record p {
          roi = r.0;
          cooldown = (should_alert p.cooldown v.camera_id v.violation_type m.now).0;
        },
        err e,
      )
  after_roi_fails p v m (roi, inside) e here fires failed = rw here (
      after_cooldown_fails (record p { roi = roi }) v m
        (should_alert p.cooldown v.camera_id v.violation_type m.now) e fires failed)

  -- A violation within the region, whose cool-down is over, is refused by the database: the turn
  -- raises. The same violation, seen again before the cool-down is over, is not put to the database,
  -- whatever that would answer by then: neither of the two is recorded.
  pub handle_suppressed :
      (p : AlertPipeline g) (v : Violation g.Coordinate) (m later : Moment) (e : Error)
      → (is_in_roi g m.get_roi p.roi v.camera_id v.bbox).1 ≡ ok true
      → (should_alert p.cooldown v.camera_id v.violation_type m.now).1 ≡ true
      → m.inserted ≡ err e
      → later.now < m.now + p.cooldown.cooldown
      → ((handle g p v m).1 ≡ err e)
        × ((handle g (handle g p v m).0 v later).0.dispatcher.rows ≡ p.dispatcher.rows)
  unfolding handle
  handle_suppressed p v m later e here fires failed early =
      let c = (should_alert p.cooldown v.camera_id v.violation_type m.now).0 in
      let r = is_in_roi g m.get_roi p.roi v.camera_id v.bbox in
      let q : AlertPipeline g = record p { roi = r.0; cooldown = c } in
      let (begun, same) = should_alert_begins p.cooldown v.camera_id v.violation_type m.now fires in
      let denied =
        should_alert_early c v.camera_id v.violation_type later.now m.now begun
          (omega (arith, same, early)) in
      rw (after_roi_fails p v m r e here fires failed) (
        refl,
        after_roi_denied q v later (is_in_roi g later.get_roi q.roi v.camera_id v.bbox) denied,
      )
