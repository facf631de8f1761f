-- ===== src/SharedMemory/Protocol/Overlay.antt =====
-- What each step of the two processes keeps, about the frames that P1 draws results on.
use computer_vision.Common.{
  ℕ, ◌+◌, ◌<◌, ◌^◌, ◌≡◌, refl, sym, ap, ◌∙◌, inl, inr, Option, none, some, List, arith,
  Option-cases,
}
use computer_vision.Errors.{Result, ok, err}
use computer_vision.SharedMemory.Words.{Integer, natural}
use computer_vision.SharedMemory.{
  Slot, number, Frame, Segments, state, free, filled, locked, pick_free, find_filled, acquire,
  release, read_frame, read_result,
}
use computer_vision.SharedMemory.Protocol.{
  System, Event, capture, collect, take_frame, finish, capture_step, overlay, hold, take_step,
  finish_step, collect_step, step,
}
use computer_vision.SharedMemory.Protocol.Untouched.{
  set_state-SameResult, set_state-read_frame, state-set_state_self, state-set_state_ne,
  write_result-SameSlot, write_result-words,
}
use computer_vision.SharedMemory.Protocol.Steps.{
  take_step_busy, take_step_idle, take_step_holds, finish_step_idle, finish_step_writes,
  read_result-some, collect_step-none, collect_step-some, slot_of-number,
}
use computer_vision.SharedMemory.Protocol.Coherence.{
  sequence, WorkerFits, Apart, Unread, IsCoherent, IsCoherent-SameLocked, ne_of_state,
  pick_free_state, find_filled_state, write_frame-SameLocked, SameLocked-set_state, ne_locked,
  locking,
}

capture_step-IsCoherent : (y : System) (f : Frame) → IsCoherent y → IsCoherent (capture_step y f)
unfolding capture_step
capture_step-IsCoherent y f v = elim (Option-cases (pick_free y.segments)) [
  | inl full ↦ rw (full, capture_step) v
  | inr (i, picked) ↦
      rw (picked, capture_step)
        (IsCoherent-SameLocked y _
          (write_frame-SameLocked y.segments i f (pick_free_state y.segments i picked)) v)
]

-- P2 has just locked slot `i`, which was filled, and read `r` from it.
hold-IsCoherent :
    (y : System) (i : Slot) (r : Result (Option Frame))
    → y.worker ≡ none
    → state y.segments i ≡ filled
    → read_frame (acquire y.segments i) i ≡ r
    → IsCoherent y
    → IsCoherent (hold (record y { segments = acquire y.segments i }) i r)
unfolding hold acquire release
hold-IsCoherent y i (err e) idle p q v = IsCoherent-SameLocked y _ (locking y.segments i p) v
hold-IsCoherent y i (ok none) idle p q v =
    IsCoherent-SameLocked y _
      (SameLocked-set_state y.segments _ i free (locking y.segments i p) (ne_locked y.segments i p))
      v
hold-IsCoherent y i (ok (some f)) idle p q v =
    let now = IsCoherent-SameLocked y _ (locking y.segments i p) v in
    record {
      working = (state-set_state_self y.segments i locked, q);
      read_le = now.read_le;
      unread = elim v.unread [
        | inl done ↦ inl ((locking y.segments i p).result.sequence ∙ done)
        | inr u ↦
            let same = (locking y.segments i p).slot u.slot u.status in
            inr (record {
              slot = u.slot;
              frame = u.frame;
              target = (locking y.segments i p).result.target ∙ u.target;
              status = same.status ∙ u.status;
              holds = same.frame ∙ u.holds;
              about = u.about;
              apart = ne_of_state y.segments i u.slot filled locked p u.status (omega arith);
            })
      ];
      exact = v.exact;
    }

take_step-IsCoherent : (y : System) → IsCoherent y → IsCoherent (take_step y)
take_step-IsCoherent y v = elim (Option-cases y.worker) [
  | inr (p, busy) ↦ rw (take_step_busy y p busy) v
  | inl idle ↦ elim (Option-cases (find_filled y.segments)) [
    | inl empty ↦ rw (take_step_idle y idle empty) v
    | inr (i, found) ↦
        rw (take_step_holds y i idle found)
          (hold-IsCoherent y i _ idle (find_filled_state y.segments i found) refl v)
  ]
]

worker_fits :
    (s : Segments) (w : Option (Slot × Frame)) (i : Slot) (f : Frame)
    → w ≡ some (i, f)
    → WorkerFits s w
    → (state s i ≡ locked) × (read_frame s i ≡ ok (some f))
worker_fits s none i f e h = cc
worker_fits s (some (j, g)) i f e h = ground arith

finish_step-IsCoherent :
    (y : System) (text : List ℕ)
    → sequence y.segments + 1 < 2 ^ 64
    → IsCoherent y
    → IsCoherent (finish_step y text)
finish_step-IsCoherent y text room v = elim (Option-cases y.worker) [
  | inl idle ↦ rw (finish_step_idle y text idle) v
  | inr ((i, f), busy) ↦
      let (status, holds) = worker_fits y.segments y.worker i f busy v.working in
      let same = write_result-SameSlot y.segments text i i in
      let (target, next, _) = write_result-words y.segments text i room in
      rw (finish_step_writes y text i f busy) (record {
        working = tt;
        read_le = omega (arith, v.read_le);
        unread = inr (record {
          slot = i;
          frame = f;
          target = target;
          status = same.status ∙ status;
          holds = same.frame ∙ holds;
          about = refl;
          apart = tt;
        });
        exact = v.exact;
      })
]

module _ {J : Type 0} (loads : List ℕ → Option J) where
  release-Apart :
      (s : Segments) (w : Option (Slot × Frame)) (i : Slot)
      → Apart w i
      → WorkerFits s w
      → WorkerFits (release s i) w
  unfolding release
  release-Apart s none i a h = tt
  release-Apart s (some (j, g)) i a h =
      (state-set_state_ne s i j free (λ e. a (sym e)) ∙ h.0, set_state-read_frame s i j free ∙ h.1)

  collected :
      (y : System) (j : J) (u : Unread y)
      → (read_result loads y.segments y.last_result_seq).1 ≡ some (j, natural (number u.slot))
      → IsCoherent y
      → IsCoherent (collect_step loads y)
  unfolding overlay release
  collected y j u e v =
      rw (collect_step-some loads y j _ u.slot e (slot_of-number u.slot), u.holds)
        (record {
          working = unfold release in release-Apart y.segments y.worker u.slot u.apart v.working;
          read_le = rw ((set_state-SameResult y.segments u.slot free).sequence) (omega arith);
          unread = inl (set_state-SameResult y.segments u.slot free).sequence;
          exact = (u.about, v.exact);
        })

  collect_step-IsCoherent : (y : System) → IsCoherent y → IsCoherent (collect_step loads y)
  collect_step-IsCoherent y v =
      elim (Option-cases (read_result loads y.segments y.last_result_seq).1) [
        | inl nothing ↦ rw (collect_step-none loads y nothing) (record {
          working = v.working;
          read_le = omega arith;
          unread = inl refl;
          exact = v.exact;
        })
        | inr ((j, t), some_result) ↦
            let (target, fresh) =
              read_result-some loads y.segments y.last_result_seq j t some_result in
            elim v.unread [
              | inl done ↦ absurd (fresh done)
              | inr u ↦
                  collected y j u
                    (some_result ∙ ap (λ (x : Integer). some (j, x)) (target ∙ u.target)) v
            ]
      ]

  pub step-IsCoherent :
      (y : System) (e : Event)
      → sequence y.segments + 1 < 2 ^ 64
      → IsCoherent y
      → IsCoherent (step loads y e)
  unfolding step
  step-IsCoherent y (capture f) room v = capture_step-IsCoherent y f v
  step-IsCoherent y collect room v = collect_step-IsCoherent y v
  step-IsCoherent y take_frame room v = take_step-IsCoherent y v
  step-IsCoherent y (finish text) room v = finish_step-IsCoherent y text room v
