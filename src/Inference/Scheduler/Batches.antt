-- ===== src/Inference/Scheduler/Batches.antt =====
-- The batches of the shared scheduler: their size, and the errors that `_collect_batch` cannot meet.
use mathlib.Core.Bool.{◌&&◌}
use computer_vision.Common.{
  ℕ, zero, suc, ◌+◌, ◌%◌, ◌≤◌, ◌<◌, ◌≡◌, refl, ap, ◌⊎◌, inl, inr, String, true, Option, none, some,
  List, [], ◌∷◌, arith, length, length-append, get_elem?, get_elem?-lt, ltb, leb, lookup,
  lookup-insert, contains, Dict, text_key, insert, Bool-cases, Option-cases,
}
use computer_vision.Capture.LatestFrame.{FramePacket, LatestFrameBuffer, read_latest}
use computer_vision.Inference.Scheduler.{
  SharedInferenceScheduler, Lane, Visit, add_one, after_read, visit_camera, collect_loop,
  collect_batch,
}
use computer_vision.RoundRobin.Turns.{mod-lt_pos}

abbrev pub AllKnown : List String → Dict String Lane → Type 0
AllKnown [] d = Unit
AllKnown (c ∷ order) d = (contains c d ≡ true) × AllKnown order d

-- The cursor is within the order, and every camera of the order has its entries.
pub record IsReady {ℓ} {O : Type ℓ} (s : SharedInferenceScheduler O) : Type 0 where
  pub cursor : (length s.camera_order ≡ 0) ⊎ (s.cursor < length s.camera_order)
  pub known : AllKnown s.camera_order s.lanes

contains-insert :
    (j : String) (d : Dict String Lane) (c : String) (lane : Lane)
    → contains j d ≡ true
    → contains j (insert c lane d) ≡ true
unfolding contains
contains-insert j d c lane h = ground (arith, lookup-insert c j lane d)

AllKnown-insert :
    (order : List String) (d : Dict String Lane) (c : String) (lane : Lane)
    → AllKnown order d
    → AllKnown order (insert c lane d)
AllKnown-insert [] d c lane h = tt
AllKnown-insert (j ∷ order) d c lane h =
    (contains-insert j d c lane h.0, AllKnown-insert order d c lane h.1)

some_of-contains :
    (c : String) (d : Dict String Lane)
    → contains c d ≡ true
    → (lane : Lane) × (lookup c d ≡ some lane)
unfolding contains
some_of-contains c d h = elim (Option-cases (lookup c d)) [
  | inl missing ↦ ground arith
  | inr (lane, known) ↦ (lane, known)
]

lookup-AllKnown :
    (order : List String) (d : Dict String Lane) (i : ℕ) (c : String)
    → AllKnown order d
    → get_elem? order i ≡ some c
    → (lane : Lane) × (lookup c d ≡ some lane)
lookup-AllKnown [] d i c h e = cc
lookup-AllKnown (j ∷ order) d zero c h e = some_of-contains c d (ground arith)
lookup-AllKnown (j ∷ order) d (suc i) c h e = lookup-AllKnown order d i c h.1 e

length-add_one {ℓ} :
    {A : Type ℓ} (xs : List A) (o : Option A) → length (add_one xs o) ≤ length xs + 1
length-add_one xs none = omega arith
length-add_one xs (some x) = omega (arith, length-append xs (x ∷ []))

-- What one turn of the loop does to the order and the cursor.
record Turned {ℓ} {O : Type ℓ} (s t : SharedInferenceScheduler O) : Type ℓ where
  configuration : t.configuration ≡ s.configuration
  order : t.camera_order ≡ s.camera_order
  cursor : t.cursor ≡ (s.cursor + 1) % length s.camera_order
  known : AllKnown s.camera_order s.lanes → AllKnown s.camera_order t.lanes

module _ {ℓ} {O : Type ℓ} where
  after_read-Turned :
      (s : SharedInferenceScheduler O) (c : String) (lane : Lane) (b : LatestFrameBuffer)
      (p : Option FramePacket) (t : ℕ)
      → let s' = record s { cursor = (s.cursor + 1) % length s.camera_order } in
        Turned s (after_read s' c lane (b, p) t).0
  unfolding after_read
  after_read-Turned s c lane b none t = record {
    configuration = refl;
    order = refl;
    cursor = refl;
    known = λ h. AllKnown-insert s.camera_order s.lanes c _ h;
  }
  after_read-Turned s c lane b (some p) t = record {
    configuration = refl;
    order = refl;
    cursor = refl;
    known = λ h. AllKnown-insert s.camera_order s.lanes c _ h;
  }

  visit_camera-Turned :
      (s : SharedInferenceScheduler O) (c : String) (lane : Lane) (t : Visit)
      → Turned s (visit_camera s c lane t).0
  unfolding visit_camera
  visit_camera-Turned s c lane t =
      elim (Bool-cases
        (ltb 0 lane.interval_ns && ltb t.now (lane.last_scheduled_ns + lane.interval_ns))) [
          | inl early ↦
              rw early
                (record { configuration = refl; order = refl; cursor = refl; known = λ h. h })
          | inr due ↦
              let r =
                read_latest lane.buffer lane.last_sequence (some s.configuration.max_frame_age_ms)
                  t.read_at in
              rw due (after_read-Turned s c lane r.0 r.1 t.scheduled_at)
        ]

  Turned-IsReady :
      (s t : SharedInferenceScheduler O)
      → Turned s t
      → s.cursor < length s.camera_order
      → IsReady s
      → IsReady t
  Turned-IsReady s t h inside v = record {
    cursor =
        rw (h.order, h.cursor) (inr (mod-lt_pos (length s.camera_order) s.cursor (omega arith)));
    known = rw h.order (h.known v.known);
  }

  -- What `collect_loop` returns for the batch that it was given.
  pub record Collected (left : ℕ) (s : SharedInferenceScheduler O) (batch : List FramePacket)
      (r : SharedInferenceScheduler O × Option (List FramePacket)) : Type ℓ where
    pub ready : IsReady r.0
    pub packets : List FramePacket
    pub returned : r.1 ≡ some packets
    pub small : length packets ≤ s.configuration.detector_batch_size
    pub few : length packets ≤ length batch + left

  collect_loop-Collected :
      (left : ℕ) (s : SharedInferenceScheduler O) (visits : ℕ → Visit) (batch : List FramePacket)
      → s.cursor < length s.camera_order
      → length batch ≤ s.configuration.detector_batch_size
      → IsReady s
      → Collected left s batch (collect_loop left s visits batch)
  unfolding collect_loop
  collect_loop-Collected zero s visits batch inside small v = record {
    ready = v;
    packets = batch;
    returned = refl;
    small = small;
    few = omega arith;
  }
  collect_loop-Collected (suc left) s visits batch inside small v =
      elim (Bool-cases (leb s.configuration.detector_batch_size (length batch))) [
        | inl enough ↦
            rw (enough, collect_loop)
              (record {
                ready = v;
                packets = batch;
                returned = refl;
                small = small;
                few = omega arith;
              })
        | inr more ↦
            let (c, here) = get_elem?-lt s.camera_order s.cursor inside in
            let (lane, known) = lookup-AllKnown s.camera_order s.lanes s.cursor c v.known here in
            let r = visit_camera s c lane (visits left) in
            let room : length batch < s.configuration.detector_batch_size = ground arith in
            let turned = visit_camera-Turned s c lane (visits left) in
            let config : r.0.configuration.detector_batch_size
                ≡ s.configuration.detector_batch_size =
              ap (λ k. k.detector_batch_size) turned.configuration in
            let rest =
              collect_loop-Collected left r.0 visits (add_one batch r.1)
                (rw (turned.order, turned.cursor)
                  (mod-lt_pos (length s.camera_order) s.cursor (omega arith)))
                (omega (arith, config, room, length-add_one batch r.1))
                (Turned-IsReady s r.0 turned inside v) in
            rw (more, here, known, collect_loop)
              (record {
                ready = rest.ready;
                packets = rest.packets;
                returned = rest.returned;
                small = omega (arith, config, rest.small);
                few = omega (arith, rest.few, length-add_one batch r.1);
              })
      ]

  -- With a cursor within the order and entries for every camera, `_collect_batch` never raises and
  -- keeps both; the batch has no more packets than configured, and no more than there are cameras.
  pub collect_batch-Collected :
      (s : SharedInferenceScheduler O) (visits : ℕ → Visit)
      → IsReady s
      → Collected (length s.camera_order) s [] (collect_batch s visits)
  unfolding collect_batch collect_loop
  collect_batch-Collected s visits v = elim v.cursor [
    | inl none_there ↦
        let e = none_there in
        rw (e, collect_loop)
          (record {
            ready = v;
            packets = [];
            returned = refl;
            small = omega arith;
            few = omega arith;
          })
    | inr inside ↦ collect_loop-Collected (length s.camera_order) s visits [] inside (omega arith) v
  ]
