-- ===== src/RoundRobin/Validity.antt =====
-- The invariant of the scheduler of inference/scheduler.py: its queues, its order and its index.
use native.Mathlib.Decide.{dec_lt}
use computer_vision.Common.{
  ℕ, zero, suc, ◌≤◌, ◌<◌, ◌≡◌, refl, ap, ◌⊎◌, inl, inr, String, true, Option, none, some, List, [],
  ◌∷◌, ◌++◌, arith, length, length-append, length-drop, drop, Dict, keys, lookup,
  lookup-insert_self, insert, contains, Option-cases, get_elem?-lt, ◌==◌, text_key, if◌then◌else◌,
  Bool-cases, List-cases,
}
use computer_vision.RoundRobin.{
  Scheduler, maxlen, register_camera, queue_of, push, add_frame, advance, poll_loop, poll,
}
use computer_vision.RoundRobin.Turns.{mod-lt_pos, poll_loop_passes, poll_loop_serves}

pub data Operation {ℓ} (F : Type ℓ) : Type ℓ where
  register : String → Operation F
  add : String → F → Operation F
  next : Operation F

module _ {ℓ} {F : Type ℓ} where
  abbrev pub AllShort : Dict String (List F) → Type 0
  AllShort [] = Unit
  AllShort ((c, queue) ∷ d) = (length queue ≤ maxlen) × AllShort d

  pub record IsValid (s : Scheduler F) : Type 0 where
    pub index : (s.index ≡ 0) ⊎ (s.index < length s.order)
    pub registered : s.order ≡ keys s.queues
    pub short : AllShort s.queues

  length-push : (queue : List F) (f : F) → length queue ≤ maxlen → length (push queue f) ≤ maxlen
  unfolding push
  length-push queue f h = ground (
    arith,
    length-append queue (f ∷ []),
    length-append (drop 1 queue) (f ∷ []),
    length-drop 1 queue,
  )

  AllShort-insert :
      (c : String) (queue : List F) (d : Dict String (List F))
      → length queue ≤ maxlen
      → AllShort d
      → AllShort (insert c queue d)
  unfolding insert
  AllShort-insert c queue [] h all = (h, tt)
  AllShort-insert c queue ((k, q) ∷ d) h all = elim (Bool-cases (k == c)) [
    | inl same ↦ rw same (h, all.1)
    | inr other ↦ rw other (all.0, AllShort-insert c queue d h all.1)
  ]

  keys-insert :
      (c : String) (queue : List F) (d : Dict String (List F))
      → keys (insert c queue d) ≡ (if contains c d then keys d else keys d ++ c ∷ [])
  unfolding insert contains
  keys-insert c queue [] = refl
  keys-insert c queue ((k, q) ∷ d) = ground (arith, keys-insert c queue d)

  lookup-short :
      (c : String) (d : Dict String (List F)) (q : List F)
      → lookup c d ≡ some q
      → AllShort d
      → length q ≤ maxlen
  unfolding lookup
  lookup-short c [] q e all = cc
  lookup-short c ((k, w) ∷ d) q e all = elim (Bool-cases (k == c)) [
    | inl same ↦ ground arith
    | inr other ↦ lookup-short c d q (ground arith) all.1
  ]

  queue_of-short :
      (s : Scheduler F) (c : String) → AllShort s.queues → length (queue_of s c) ≤ maxlen
  unfolding queue_of
  queue_of-short s c all = elim (Option-cases (lookup c s.queues)) [
    | inl missing ↦ rw (missing, queue_of) (omega arith)
    | inr (q, found) ↦ rw (found, queue_of) (lookup-short c s.queues q found all)
  ]

  contains-register_camera :
      (s : Scheduler F) (c : String) → contains c (register_camera s c).queues ≡ true
  unfolding register_camera contains
  contains-register_camera s c = ground (arith, lookup-insert_self c [] s.queues)

  contains_of-queue_of :
      (s : Scheduler F) (c : String) (f : F) (rest : List F)
      → queue_of s c ≡ f ∷ rest
      → contains c s.queues ≡ true
  unfolding queue_of contains
  contains_of-queue_of s c f rest e = ground arith

  -- A known camera's queue is replaced.
  replaced :
      (s t : Scheduler F) (c : String) (q : List F)
      → IsValid s
      → contains c s.queues ≡ true
      → length q ≤ maxlen
      → t.order ≡ s.order
      → t.queues ≡ insert c q s.queues
      → (t.index ≡ 0) ⊎ (t.index < length t.order)
      → IsValid t
  replaced s t c q v known short order queues index = record {
    index = index;
    registered = rw (order, queues, keys-insert, known) v.registered;
    short = rw queues (AllShort-insert c q s.queues short v.short);
  }

  register_camera-IsValid :
      (s : Scheduler F) (c : String) → IsValid s → IsValid (register_camera s c)
  unfolding register_camera
  register_camera-IsValid s c v = elim (Bool-cases (contains c s.queues)) [
    | inl known ↦ rw known v
    | inr new ↦ rw new (record {
      index = omega (arith, v.index, length-append s.order (c ∷ []));
      registered = rw (keys-insert, new) (ap (λ o. o ++ c ∷ []) v.registered);
      short = AllShort-insert c [] s.queues (omega arith) v.short;
    })
  ]

  add_frame-IsValid : (s : Scheduler F) (c : String) (f : F) → IsValid s → IsValid (add_frame s c f)
  unfolding add_frame
  add_frame-IsValid s c f v =
      let s' = register_camera s c in
      let v' = register_camera-IsValid s c v in
      replaced s' (add_frame s c f) c (push (queue_of s' c) f) v' (contains-register_camera s c)
        (length-push (queue_of s' c) f (queue_of-short s' c v'.short)) refl refl v'.index

  advance-IsValid : (s : Scheduler F) → s.index < length s.order → IsValid s → IsValid (advance s)
  advance-IsValid s h v = record {
    index = inr (mod-lt_pos (length s.order) s.index (omega arith));
    registered = v.registered;
    short = v.short;
  }

  tail-short :
      (f : F) (rest : List F) (q : List F) → q ≡ f ∷ rest → length q ≤ maxlen → length rest ≤ maxlen
  tail-short f rest q e h = ground arith

  poll_loop-IsValid :
      (rounds : ℕ) (s : Scheduler F)
      → s.index < length s.order
      → IsValid s
      → IsValid (poll_loop rounds s).0
        × ((r : Option (String × F)) × ((poll_loop rounds s).1 ≡ some r))
  poll_loop-IsValid zero s h v = unfold poll_loop in (v, (none, refl))
  poll_loop-IsValid (suc rounds) s h v =
      let (k, here) = get_elem?-lt s.order s.index h in
      elim (List-cases (queue_of s k)) [
        | inl empty_queue ↦ rw (poll_loop_passes rounds s k here empty_queue) (
            poll_loop-IsValid rounds (advance s) (mod-lt_pos (length s.order) s.index (omega arith))
              (advance-IsValid s h v))
        | inr (f, rest, found) ↦ rw (poll_loop_serves rounds s k f rest here found) (
          replaced s _ k rest v (contains_of-queue_of s k f rest found)
              (tail-short f rest (queue_of s k) found (queue_of-short s k v.short)) refl refl
              (inr (mod-lt_pos (length s.order) s.index (omega arith))),
          (some (k, f), refl),
        )
      ]

  poll-IsValid :
      (s : Scheduler F)
      → IsValid s
      → IsValid (poll s).0 × ((r : Option (String × F)) × ((poll s).1 ≡ some r))
  unfolding poll
  poll-IsValid s v = elim (dec_lt s.index (length s.order)) [
    | yes inside ↦ poll_loop-IsValid (length s.order) s inside v
    | no none_left ↦
        let e : length s.order ≡ 0 = omega (arith, v.index) in
        rw e (unfold poll_loop in (v, (none, refl)))
  ]

  unfoldable pub apply : Scheduler F → Operation F → Scheduler F
  apply s (register c) = register_camera s c
  apply s (add c f) = add_frame s c f
  apply s next = (poll s).0

  -- Every operation keeps one queue to a registered camera, no queue longer than five frames and the
  -- index within the order; and a poll of such a scheduler never raises.
  pub apply-IsValid :
      (s : Scheduler F) (o : Operation F)
      → IsValid s
      → IsValid (apply s o) × ((r : Option (String × F)) × ((poll s).1 ≡ some r))
  unfolding apply
  apply-IsValid s (register c) v = (register_camera-IsValid s c v, (poll-IsValid s v).1)
  apply-IsValid s (add c f) v = (add_frame-IsValid s c f v, (poll-IsValid s v).1)
  apply-IsValid s next v = poll-IsValid s v
