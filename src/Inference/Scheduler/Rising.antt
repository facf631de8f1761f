-- ===== src/Inference/Scheduler/Rising.antt =====
-- The numbers of the frames that the shared scheduler takes from its cameras.
pub mod Taken
pub mod Runs
use mathlib.Core.Bool.{◌&&◌}
use computer_vision.Common.{
  ℕ, zero, suc, ◌+◌, ◌%◌, ◌≤◌, ◌<◌, ◌≡◌, refl, sym, ap, ◌∙◌, inl, inr, String, true, false, Option,
  none, some, List, [], ◌∷◌, ◌++◌, length, get_elem?, arith, ltb, leb, Dict, lookup, insert,
  lookup-insert, AllEntries, AllEntries-lookup, AllEntries-insert, ◌==◌, text_key, Bool-cases,
  Option-cases, if◌then◌else◌,
}
use computer_vision.Capture.LatestFrame.{
  Array, FramePacket, LatestFrameBuffer, Stamps, publish, read_latest, packet,
}
use computer_vision.Inference.Scheduler.{
  SharedInferenceScheduler, Lane, Visit, Clock, add_one, after_read, visit_camera, collect_loop,
}

-- The numbers once the packet `p` was handed over.
abbrev pub raised : (String → ℕ) → FramePacket → String → ℕ
raised last p c = if p.camera_id == c then p.frame_id else last c

-- Each packet has a greater number than the last one of its camera.
abbrev pub IsRising : (String → ℕ) → List FramePacket → Type 0
IsRising last [] = Unit
IsRising last (p ∷ ps) = (last p.camera_id < p.frame_id) × IsRising (raised last p) ps

raised-le :
    (last later : String → ℕ) (p : FramePacket) (c : String)
    → last c ≤ later c
    → raised last p c ≤ raised later p c
raised-le last later p c h = elim (Bool-cases (p.camera_id == c)) [
  | inl same ↦ rw same (omega arith)
  | inr other ↦ rw other h
]

pub IsRising-later :
    (last later : String → ℕ) (ps : List FramePacket)
    → ((c : String) → last c ≤ later c)
    → IsRising later ps
    → IsRising last ps
IsRising-later last later [] le h = tt
IsRising-later last later (p ∷ ps) le h = (
  omega (arith, le p.camera_id, h.0),
  IsRising-later (raised last p) (raised later p) ps (λ c. raised-le last later p c (le c)) h.1,
)

le-raised :
    (last : String → ℕ) (p : FramePacket) (c : String)
    → last p.camera_id < p.frame_id
    → last c ≤ raised last p c
le-raised last p c h = elim (Bool-cases (p.camera_id == c)) [
  | inl same ↦ rw same (omega (arith, h, ap last ((text_key.same_iff p.camera_id c).0 same)))
  | inr other ↦ rw other (omega arith)
]

pub IsRising-skip :
    (last : String → ℕ) (ps later : List FramePacket)
    → IsRising last (ps ++ later)
    → IsRising last later
IsRising-skip last [] later h = h
IsRising-skip last (p ∷ ps) later h =
    IsRising-later last (raised last p) later (λ c. le-raised last p c h.0)
      (IsRising-skip (raised last p) ps later h.1)

abbrev pub number_of : Option Lane → ℕ
number_of none = 0
number_of (some lane) = lane.last_sequence

-- The number of the last frame that was taken from a camera.
abbrev pub last_of : Dict String Lane → String → ℕ
last_of d c = number_of (lookup c d)

-- A camera's buffer has the camera's name.
abbrev pub IsNamed : Dict String Lane → Type 0
IsNamed d = AllEntries (λ c lane. lane.buffer.camera_id ≡ c) d

pub last_of-insert :
    (d : Dict String Lane) (c : String) (lane l : Lane) (j : String)
    → lookup c d ≡ some lane
    → lane.last_sequence ≤ l.last_sequence
    → last_of d j ≤ last_of (insert c l d) j
last_of-insert d c lane l j known le = elim (Bool-cases (c == j)) [
  | inl same ↦
      let before : lookup j d ≡ some lane =
        ap (λ k. lookup k d) (sym ((text_key.same_iff c j).0 same)) ∙ known in
      let after : lookup j (insert c l d) ≡ some l = lookup-insert c j l d ∙ rw same refl in
      omega (arith, le, ap number_of before, ap number_of after)
  | inr other ↦
      let after : lookup j (insert c l d) ≡ lookup j d = lookup-insert c j l d ∙ rw other refl in
      omega (arith, ap number_of after)
]

raised-insert :
    (d : Dict String Lane) (p : FramePacket) (l : Lane) (j : String)
    → l.last_sequence ≡ p.frame_id
    → raised (last_of d) p j ≤ last_of (insert p.camera_id l d) j
raised-insert d p l j e = elim (Bool-cases (p.camera_id == j)) [
  | inl same ↦
      let after : lookup j (insert p.camera_id l d) ≡ some l =
        lookup-insert p.camera_id j l d ∙ rw same refl in
      rw same (omega (arith, e, ap number_of after))
  | inr other ↦
      let after : lookup j (insert p.camera_id l d) ≡ lookup j d =
        lookup-insert p.camera_id j l d ∙ rw other refl in
      rw other (omega (arith, ap number_of after))
]

read_latest-name :
    (b : LatestFrameBuffer) (after max_age now : ℕ)
    → (read_latest b after (some max_age) now).0.camera_id ≡ b.camera_id
unfolding read_latest
read_latest-name b after max_age now = ground arith

read_latest-stale :
    (b : LatestFrameBuffer) (after max_age now : ℕ)
    → ltb b.stale (read_latest b after (some max_age) now).0.stale ≡ true
    → after < (read_latest b after (some max_age) now).0.sequence
unfolding read_latest
read_latest-stale b after max_age now h = ground arith

read_latest-number :
    (b : LatestFrameBuffer) (after max_age now : ℕ) (p : FramePacket)
    → (read_latest b after (some max_age) now).1 ≡ some p
    → (after < p.frame_id) × (p.camera_id ≡ b.camera_id)
unfolding read_latest packet
read_latest-number b after max_age now p e = (ground arith, ground arith)

pub publish-name :
    (b : LatestFrameBuffer) (frame : Array) (t : Stamps)
    → (publish b frame t).0.camera_id ≡ b.camera_id
unfolding publish
publish-name b frame t = ground arith

-- What a turn of the loop does with the numbers: a packet that it takes is newer than the last one, and
-- no number falls.
abbrev pub Advances : Dict String Lane → Dict String Lane → Option FramePacket → Type 0
Advances d e none = (c : String) → last_of d c ≤ last_of e c
Advances d e (some p) =
    (last_of d p.camera_id < p.frame_id) × ((c : String) → raised (last_of d) p c ≤ last_of e c)

module _ {ℓ} {O : Type ℓ} where
  after_read-Advances :
      (s : SharedInferenceScheduler O) (c : String) (lane : Lane) (b : LatestFrameBuffer)
      (o : Option FramePacket) (t : ℕ)
      → lookup c s.lanes ≡ some lane
      → (ltb lane.buffer.stale b.stale ≡ true → lane.last_sequence < b.sequence)
      → ((p : FramePacket) → o ≡ some p → (lane.last_sequence < p.frame_id) × (p.camera_id ≡ c))
      → Advances s.lanes (after_read s c lane (b, o) t).0.lanes (after_read s c lane (b, o) t).1
  unfolding after_read
  after_read-Advances s c lane b none t known stale newer =
      λ j. last_of-insert s.lanes c lane _ j known (ground (arith, stale))
  after_read-Advances s c lane b (some p) t known stale newer =
      let (more, same) = newer p refl in
      let at : last_of s.lanes p.camera_id ≡ lane.last_sequence =
        ap number_of (ap (λ k. lookup k s.lanes) same ∙ known) in
      (omega (arith, at, more), λ j. rw (← same) (raised-insert s.lanes p _ j refl))

  after_read-IsNamed :
      (s : SharedInferenceScheduler O) (c : String) (lane : Lane) (b : LatestFrameBuffer)
      (o : Option FramePacket) (t : ℕ)
      → b.camera_id ≡ c
      → IsNamed s.lanes
      → IsNamed (after_read s c lane (b, o) t).0.lanes
  unfolding after_read
  after_read-IsNamed s c lane b none t name v = AllEntries-insert _ c _ s.lanes v name
  after_read-IsNamed s c lane b (some p) t name v = AllEntries-insert _ c _ s.lanes v name

  pub visit_camera-Advances :
      (s : SharedInferenceScheduler O) (c : String) (lane : Lane) (t : Visit)
      → lookup c s.lanes ≡ some lane
      → IsNamed s.lanes
      → Advances s.lanes (visit_camera s c lane t).0.lanes (visit_camera s c lane t).1
        × IsNamed (visit_camera s c lane t).0.lanes
  unfolding visit_camera
  visit_camera-Advances s c lane t known v =
      elim (Bool-cases
        (ltb 0 lane.interval_ns && ltb t.now (lane.last_scheduled_ns + lane.interval_ns))) [
          | inl early ↦ rw early ((λ j. omega arith), v)
          | inr due ↦
              let s' = record s { cursor = (s.cursor + 1) % length s.camera_order } in
              let limit = s.configuration.max_frame_age_ms in
              let name : lane.buffer.camera_id ≡ c = AllEntries-lookup _ c lane s.lanes v known in
              let b = lane.buffer in
              let r = read_latest b lane.last_sequence (some limit) t.read_at in
              rw due (
                after_read-Advances s' c lane r.0 r.1 t.scheduled_at known
                    (read_latest-stale b lane.last_sequence limit t.read_at)
                    (λ p e.
                      let number = read_latest-number b lane.last_sequence limit t.read_at p e in
                      (number.0, number.1 ∙ name)),
                after_read-IsNamed s' c lane r.0 r.1 t.scheduled_at
                    (read_latest-name b lane.last_sequence limit t.read_at ∙ name) v,
              )
        ]
