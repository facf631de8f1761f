-- ===== src/Inference/Scheduler/Rising/Taken.antt =====
-- What `_collect_batch` takes, as a statement about the numbers of its packets.
use mathlib.Core.List.{append_assoc, append-nil}
use computer_vision.Common.{
  ℕ, zero, suc, ◌≡◌, refl, sym, ap, ◌∙◌, ◌⊎◌, inl, inr, Option, none, some, List, [], ◌∷◌, ◌++◌,
  length, get_elem?, ltb, leb, lookup, text_key, Bool-cases, Option-cases, if◌then◌else◌,
}
use computer_vision.Capture.LatestFrame.{FramePacket}
use computer_vision.Inference.Scheduler.{
  SharedInferenceScheduler, Visit, Clock, add_one, visit_camera, collect_loop, collect_batch,
}
use computer_vision.Inference.Scheduler.Rising.{
  raised, IsRising, IsRising-later, IsRising-skip, last_of, IsNamed, Advances,
  visit_camera-Advances,
}

abbrev pub packets_of : Option (List FramePacket) → List FramePacket
packets_of none = []
packets_of (some batch) = batch

module _ {ℓ} {O : Type ℓ} where
  -- What the loop leaves, from a batch on: the packets that it has taken rise, whatever is taken later.
  pub record Takes (s : SharedInferenceScheduler O) (batch : List FramePacket)
      (r : SharedInferenceScheduler O × Option (List FramePacket)) : Type ℓ where
    pub named : IsNamed r.0.lanes
    pub taken : List FramePacket
    pub returned : (r.1 ≡ none) ⊎ (r.1 ≡ some (batch ++ taken))
    pub rising :
        (later : List FramePacket)
        → IsRising (last_of r.0.lanes) later
        → IsRising (last_of s.lanes) (taken ++ later)

  Takes-refl :
      (s : SharedInferenceScheduler O) (batch : List FramePacket)
      → IsNamed s.lanes
      → Takes s batch (s, some batch)
  Takes-refl s batch v = record {
    named = v;
    taken = [];
    returned = inr (ap some (sym (append-nil batch)));
    rising = λ later h. h;
  }

  Takes-error :
      (s : SharedInferenceScheduler O) (batch : List FramePacket)
      → IsNamed s.lanes
      → Takes s batch (s, none)
  Takes-error s batch v = record {
    named = v;
    taken = [];
    returned = inl refl;
    rising = λ later h. h;
  }

  Takes-add :
      (s s' : SharedInferenceScheduler O) (batch : List FramePacket) (o : Option FramePacket)
      (r : SharedInferenceScheduler O × Option (List FramePacket))
      → Advances s.lanes s'.lanes o
      → Takes s' (add_one batch o) r
      → Takes s batch r
  Takes-add s s' batch none r up h = record {
    named = h.named;
    taken = h.taken;
    returned = h.returned;
    rising = λ later k.
        IsRising-later (last_of s.lanes) (last_of s'.lanes) (h.taken ++ later) up
          (h.rising later k);
  }
  Takes-add s s' batch (some p) r up h = record {
    named = h.named;
    taken = p ∷ h.taken;
    returned = elim h.returned [
      | inl failed ↦ inl failed
      | inr e ↦ inr (e ∙ ap some (append_assoc batch (p ∷ []) h.taken))
    ];
    rising = λ later k. (
      up.0,
      IsRising-later (raised (last_of s.lanes) p) (last_of s'.lanes) (h.taken ++ later) up.1
          (h.rising later k),
    );
  }

  pub collect_loop-Takes :
      (left : ℕ) (s : SharedInferenceScheduler O) (visits : ℕ → Visit) (batch : List FramePacket)
      → IsNamed s.lanes
      → Takes s batch (collect_loop left s visits batch)
  unfolding collect_loop
  collect_loop-Takes zero s visits batch v = Takes-refl s batch v
  collect_loop-Takes (suc left) s visits batch v =
      elim (Bool-cases (leb s.configuration.detector_batch_size (length batch))) [
        | inl enough ↦ rw (enough, collect_loop) (Takes-refl s batch v)
        | inr more ↦ elim (Option-cases (get_elem? s.camera_order s.cursor)) [
          | inl outside ↦ rw (more, outside, collect_loop) (Takes-error s batch v)
          | inr (c, here) ↦ elim (Option-cases (lookup c s.lanes)) [
            | inl unknown ↦ rw (more, here, unknown, collect_loop) (Takes-error s batch v)
            | inr (lane, known) ↦
                let r = visit_camera s c lane (visits left) in
                let (up, named) = visit_camera-Advances s c lane (visits left) known v in
                rw (more, here, known, collect_loop)
                  (Takes-add s r.0 batch r.1 _ up
                    (collect_loop-Takes left r.0 visits (add_one batch r.1) named))
          ]
        ]
      ]

  -- What one `run_once` hands to the pipeline.
  abbrev pub handed : SharedInferenceScheduler O → Clock → List FramePacket
  handed s clock =
      if ltb clock.gate s.circuit_open_until_ns
      then []
      else packets_of (collect_batch s clock.visits).1

  pub Takes-packets :
      (s : SharedInferenceScheduler O) (r : SharedInferenceScheduler O × Option (List FramePacket))
      (later : List FramePacket)
      → Takes s [] r
      → IsRising (last_of r.0.lanes) later
      → IsRising (last_of s.lanes) (packets_of r.1 ++ later)
  Takes-packets s r later h k = elim h.returned [
    | inl failed ↦ rw failed (IsRising-skip (last_of s.lanes) h.taken later (h.rising later k))
    | inr e ↦ rw e (h.rising later k)
  ]
