-- ===== src/Desktop/Cameras/Sparse.antt =====
-- How often the second camera's thread comes to its checker of protective equipment, by the checker's
-- own counter.
use computer_vision.Common.{
  ℕ, ◌+◌, ◌*◌, ◌/◌, ◌%◌, ◌≤◌, ◌≡◌, refl, ◌∙◌, ◌⊎◌, inl, inr, Bool, true, false, not, Option, none,
  some, List, [], ◌∷◌, map, eqb, arith, Numbers, if◌then◌else◌,
}
use computer_vision.Errors.{Result, ok, err}
use computer_vision.Alert.Classifier.{DetectedObject}
use computer_vision.Desktop.Alerts.{Alert}
use computer_vision.Desktop.Zones.{Maths}
use computer_vision.Desktop.Detector.{Session}
use computer_vision.Desktop.Ppe.{PpeReport, process_persons}
use computer_vision.Desktop.Cameras.{
  Received, timed_out, undecodable, decoded, Motion, Cam2, zone_alerts, detect_persons, box_like,
  cam2_lost, cam2_reported, cam2_zones, cam2_detected, moved, cam2_moved, cam2_frame, cam2_turn,
}

module _ (n : Numbers) (maths : Maths n) (m : Session n) (address : DetectedObject n → ℕ)
    (v : Motion n maths m address) where
  abbrev Thread : Type 0
  Thread = Cam2 n maths m address v

  -- What a frame may change: the checker of protective equipment counts it or not.
  record Counts (s t : Thread) : Type 0 where
    skip : t.frame_skip ≡ s.frame_skip
    every : t.ppe_checker.classify_every_n ≡ s.ppe_checker.classify_every_n
    frames : t.frame_count ≡ s.frame_count
    counted :
        (t.ppe_checker.frame_counter ≡ s.ppe_checker.frame_counter)
        ⊎ (t.ppe_checker.frame_counter ≡ s.ppe_checker.frame_counter + 1)

  cam2_reported-eq :
      (s : Thread) (zones : List (Alert n.Number))
      (reports : Option (List (PpeReport n v.Picture v.argmax)))
      → (cam2_reported n maths m address v s zones reports).0 ≡ s
  cam2_reported-eq s zones none = refl
  cam2_reported-eq s zones (some reports) = refl

  cam2_zones-Counts :
      (s : Thread) (frame : m.Frame) (persons : List (DetectedObject n))
      (r : Result (List (Alert n.Number)))
      → Counts s (cam2_zones n maths m address v s frame persons r).0
  unfolding process_persons
  cam2_zones-Counts s frame persons (err e) = record {
    skip = refl;
    every = refl;
    frames = refl;
    counted = inl refl;
  }
  cam2_zones-Counts s frame persons (ok zones) =
      let p =
        process_persons n v.Picture v.argmax maths.truncate s.ppe_checker (v.boxed frame)
          (map (box_like n maths m address v) persons) false in
      rw (cam2_reported-eq (record s { ppe_checker = p.0 }) zones p.1)
        (record { skip = refl; every = refl; frames = refl; counted = inr refl })

  cam2_detected-Counts :
      (s : Thread) (frame : m.Frame) (r : Result (List (DetectedObject n)))
      → Counts s (cam2_detected n maths m address v s frame r).0
  cam2_detected-Counts s frame (err e) = record {
    skip = refl;
    every = refl;
    frames = refl;
    counted = inl refl;
  }
  cam2_detected-Counts s frame (ok persons) =
      let c =
        cam2_zones-Counts (record s { model_ok = true }) frame persons
          (zone_alerts n maths m address s.roi_checker persons) in
      record { skip = c.skip; every = c.every; frames = c.frames; counted = c.counted }

  cam2_moved-Counts :
      (b : Bool) (s : Thread) (frame : m.Frame)
      → Counts s (cam2_moved n maths m address v b s frame).0
  cam2_moved-Counts false s frame = record {
    skip = refl;
    every = refl;
    frames = refl;
    counted = inl refl;
  }
  cam2_moved-Counts true s frame =
      cam2_detected-Counts s frame (detect_persons n maths m address s.detector s.roi_checker frame)

  -- The thread with the turns so far in which a frame was decoded, and those in which the checker's
  -- counter came to a multiple of its `classify_every_n`.
  pub record Tally : Type 0 where
    pub thread : Thread
    pub frames : ℕ
    pub multiples : ℕ

  abbrev pub is_decoded : Received n m.Frame → ℕ
  is_decoded timed_out = 0
  is_decoded undecodable = 0
  is_decoded (decoded frame) = 1

  abbrev pub is_multiple : Thread → Thread → ℕ
  is_multiple s t =
      if eqb t.ppe_checker.frame_counter s.ppe_checker.frame_counter
      then 0
      else if eqb (t.ppe_checker.frame_counter % t.ppe_checker.classify_every_n) 0
      then 1
      else 0

  abbrev pub turn : Received n m.Frame → Tally → Tally
  turn e t = record {
    thread = (cam2_turn n maths m address v t.thread e).0;
    frames = t.frames + is_decoded e;
    multiples = t.multiples + is_multiple t.thread (cam2_turn n maths m address v t.thread e).0;
  }

  unfoldable pub run : List (Received n m.Frame) → Tally → Tally
  run [] t = t
  run (e ∷ es) t = run es (turn e t)

  pub record IsSparse (t : Tally) : Type 0 where
    pub skip : t.thread.frame_skip ≡ 3
    pub every : t.thread.ppe_checker.classify_every_n ≡ 3
    pub frames : t.thread.frame_count ≡ t.frames
    pub detected : 3 * t.thread.ppe_checker.frame_counter ≤ t.frames
    pub multiples : t.multiples ≡ t.thread.ppe_checker.frame_counter / 3

  abbrev tallied : Tally → Thread → ℕ → Tally
  tallied t s k = record {
    thread = s;
    frames = t.frames + k;
    multiples = t.multiples + is_multiple t.thread s;
  }

  tallied-IsSparse :
      (t : Tally) (s : Thread) (k : ℕ)
      → s.frame_skip ≡ 3
      → s.ppe_checker.classify_every_n ≡ 3
      → s.frame_count ≡ t.frames + k
      → ((s.ppe_checker.frame_counter ≡ t.thread.ppe_checker.frame_counter)
          ⊎ ((s.ppe_checker.frame_counter ≡ t.thread.ppe_checker.frame_counter + 1)
              × ((t.frames + k) % 3 ≡ 0)
              × (k ≡ 1)))
      → IsSparse t
      → IsSparse (tallied t s k)
  tallied-IsSparse t s k skip every frames (inl same) h = record {
    skip = skip;
    every = every;
    frames = frames;
    detected = omega (arith, h.detected);
    multiples = ground (arith, h.multiples);
  }
  tallied-IsSparse t s k skip every frames (inr (more, third, one)) h = record {
    skip = skip;
    every = every;
    frames = frames;
    detected = omega (arith, h.detected);
    multiples = rw every (ground (arith, h.multiples));
  }

  lost-IsSparse :
      (b : Bool) (t : Tally)
      → IsSparse t
      → IsSparse (tallied t (cam2_lost n maths m address v b t.thread).0 0)
  lost-IsSparse true t h =
      tallied-IsSparse t t.thread 0 h.skip h.every (omega (arith, h.frames)) (inl refl) h
  lost-IsSparse false t h =
      tallied-IsSparse t (record t.thread { disconnected = true }) 0 h.skip h.every
        (omega (arith, h.frames)) (inl refl) h

  abbrev entered : Thread → Thread
  entered s = record s { disconnected = false; frame_count = s.frame_count + 1 }

  frame-IsSparse :
      (b : Bool) (t : Tally) (frame : m.Frame)
      → not (eqb ((t.thread.frame_count + 1) % t.thread.frame_skip) 0) ≡ b
      → IsSparse t
      → IsSparse (tallied t (cam2_frame n maths m address v b (entered t.thread) frame).0 1)
  frame-IsSparse true t frame e h =
      tallied-IsSparse t (entered t.thread) 1 h.skip h.every (omega (arith, h.frames)) (inl refl) h
  frame-IsSparse false t frame e h =
      let s = record (entered t.thread) { previous = some (v.gray frame) } in
      let b = moved n maths m address v t.thread.previous (v.gray frame) in
      let c = cam2_moved-Counts b s frame in
      let third : (t.frames + 1) % 3 ≡ 0 = at_third t.thread.frame_skip e h.skip in
      tallied-IsSparse t (cam2_moved n maths m address v b s frame).0 1 (c.skip ∙ h.skip)
        (c.every ∙ h.every) (omega (arith, c.frames, h.frames))
        (elim c.counted [ inl same ↦ inl same | inr more ↦ inr (more, third, refl) ]) h
    where
      at_third :
          (skip : ℕ)
          → not (eqb ((t.thread.frame_count + 1) % skip) 0) ≡ false
          → skip ≡ 3
          → (t.frames + 1) % 3 ≡ 0
      at_third skip e three = ground (arith, h.frames)

  turn-IsSparse : (e : Received n m.Frame) (t : Tally) → IsSparse t → IsSparse (turn e t)
  unfolding cam2_turn
  turn-IsSparse timed_out t h = lost-IsSparse t.thread.disconnected t h
  turn-IsSparse undecodable t h =
      tallied-IsSparse t (record t.thread { disconnected = false }) 0 h.skip h.every
        (omega (arith, h.frames)) (inl refl) h
  turn-IsSparse (decoded frame) t h =
      frame-IsSparse (not (eqb ((t.thread.frame_count + 1) % t.thread.frame_skip) 0)) t frame refl h

  -- Of the frames that the second camera's thread has decoded, whatever was in them, whatever the
  -- detector answered and however often the camera was lost: the checker's counter counts a third at most,
  -- and comes to a multiple of its `classify_every_n` at a ninth at most.
  pub run-IsSparse :
      (es : List (Received n m.Frame)) (t : Tally)
      → IsSparse t
      → IsSparse (run es t) × (9 * (run es t).multiples ≤ (run es t).frames)
  unfolding run
  run-IsSparse [] t h = (h, omega (arith, h.multiples, h.detected))
  run-IsSparse (e ∷ es) t h = run-IsSparse es (turn e t) (turn-IsSparse e t h)
