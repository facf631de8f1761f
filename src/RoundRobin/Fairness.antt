-- ===== src/RoundRobin/Fairness.antt =====
-- How many polls a camera with frames waits for, while frames of the known cameras arrive.
use mathlib.Core.Bool.{false≢true}
use computer_vision.Common.{
  ℕ, suc, ◌≤◌, ◌<◌, ◌≡◌, ◌≢◌, refl, sym, ap, ◌∙◌, ◌⊎◌, inl, inr, String, true, Option, some, List,
  [], ◌∷◌, ◌++◌, arith, length, get_elem?, drop, ltb, insert, contains, lookup-insert, ◌==◌,
  text_key, Bool-cases,
}
use computer_vision.RoundRobin.{
  Scheduler, register_camera, queue_of, push, add_frame, poll_loop, poll,
}
use computer_vision.RoundRobin.Turns.{
  turns, turns-lt, served, nearer, queue_of-insert_self, queue_of-insert_ne, poll_loop-Outcome,
}

pub data Call {ℓ} (F : Type ℓ) : Type ℓ where
  add : String → F → Call F
  next : Call F

abbrev pub polls {ℓ} : {F : Type ℓ} → List (Call F) → ℕ
polls [] = 0
polls (add k f ∷ calls) = polls calls
polls (next ∷ calls) = suc (polls calls)

module _ {ℓ} {F : Type ℓ} where
  abbrev pub emit : Option (Option (String × F)) → List (String × F) → List (String × F)
  emit (some (some x)) rest = x ∷ rest
  emit _ rest = rest

  -- What the polls among the calls return, in order.
  unfoldable pub run : Scheduler F → List (Call F) → List (String × F)
  run s [] = []
  run s (add k f ∷ calls) = run (add_frame s k f) calls
  run s (next ∷ calls) = let (s', result) = poll s in emit result (run s' calls)

  -- Every frame that arrives is of a camera that the scheduler knows.
  abbrev pub AllKnown : Scheduler F → List (Call F) → Type 0
  AllKnown s [] = Unit
  AllKnown s (add k f ∷ calls) = (contains k s.queues ≡ true) × AllKnown s calls
  AllKnown s (next ∷ calls) = AllKnown s calls

  abbrev pub IsServed : String → List (String × F) → Type 0
  IsServed c [] = ⊥
  IsServed c (x ∷ rest) = (x.0 ≡ c) ⊎ IsServed c rest

  -- Camera `c` has place `p` in the order, and frames that wait.
  pub record IsWaiting (s : Scheduler F) (c : String) (p : ℕ) : Type ℓ where
    pub index : s.index < length s.order
    pub place : p < length s.order
    pub at : get_elem? s.order p ≡ some c
    pub first : F
    pub rest : List F
    pub waits : queue_of s c ≡ first ∷ rest

  contains-insert :
      (j k : String) (q : List F) (s t : Scheduler F)
      → t.queues ≡ insert k q s.queues
      → contains j s.queues ≡ true
      → contains j t.queues ≡ true
  unfolding contains
  contains-insert j k q s t e h = ground (arith, lookup-insert k j q s.queues)

  AllKnown-insert :
      (k : String) (q : List F) (s t : Scheduler F) (calls : List (Call F))
      → t.queues ≡ insert k q s.queues
      → AllKnown s calls
      → AllKnown t calls
  AllKnown-insert k q s t [] e h = tt
  AllKnown-insert k q s t (add j f ∷ calls) e h =
      (contains-insert j k q s t e h.0, AllKnown-insert k q s t calls e h.1)
  AllKnown-insert k q s t (next ∷ calls) e h = AllKnown-insert k q s t calls e h

  add_frame_known :
      (s : Scheduler F) (k : String) (f : F)
      → contains k s.queues ≡ true
      → add_frame s k f ≡ record s { queues = insert k (push (queue_of s k) f) s.queues }
  unfolding add_frame register_camera
  add_frame_known s k f h = ground arith

  append_one : (q : List F) (f : F) → (g : F) × (gs : List F) × (q ++ f ∷ [] ≡ g ∷ gs)
  append_one [] f = (f, [], refl)
  append_one (x ∷ q) f = (x, q ++ f ∷ [], refl)

  push_waits : (q : List F) (f : F) → (g : F) × (gs : List F) × (push q f ≡ g ∷ gs)
  unfolding push
  push_waits q f = elim (Bool-cases (ltb (length q) 5)) [
    | inl room ↦ rw room (append_one q f)
    | inr full ↦ rw full (append_one (drop 1 q) f)
  ]

  IsWaiting-add :
      (s : Scheduler F) (c : String) (p : ℕ) (k : String) (f : F)
      → IsWaiting s c p
      → IsWaiting (record s { queues = insert k (push (queue_of s k) f) s.queues }) c p
  IsWaiting-add s c p k f w =
      let t = record s { queues = insert k (push (queue_of s k) f) s.queues } in
      elim (Bool-cases (k == c)) [
        | inl same ↦
            let (g, gs, e) = push_waits (queue_of s k) f in
            let here : k ≡ c = (text_key.same_iff k c).0 same in
            record {
              index = w.index;
              place = w.place;
              at = w.at;
              first = g;
              rest = gs;
              waits = ap (queue_of t) (sym here) ∙ queue_of-insert_self s t k _ refl ∙ e;
            }
        | inr other ↦
            let apart : k ≢ c = λ e. false≢true (sym other ∙ (text_key.same_iff k c).1 e) in
            record {
              index = w.index;
              place = w.place;
              at = w.at;
              first = w.first;
              rest = w.rest;
              waits = queue_of-insert_ne s t k c _ refl apart ∙ w.waits;
            }
      ]

  IsWaiting-nearer :
      (s t : Scheduler F) (c : String) (p : ℕ) (k : String) (q : List F)
      → IsWaiting s c p
      → k ≢ c
      → t.order ≡ s.order
      → t.index < length s.order
      → t.queues ≡ insert k q s.queues
      → IsWaiting t c p
  IsWaiting-nearer s t c p k q w apart order index queues = record {
    index = rw order index;
    place = rw order w.place;
    at = rw order w.at;
    first = w.first;
    rest = w.rest;
    waits = queue_of-insert_ne s t k c q queues apart ∙ w.waits;
  }

  emitted :
      (c : String) (r : Option (Option (String × F))) (rest : List (String × F)) (f : F)
      → r ≡ some (some (c, f))
      → IsServed c (emit r rest)
  emitted c r rest f e = rw e (inl refl)

  emitted_later :
      (c k : String) (r : Option (Option (String × F))) (rest : List (String × F)) (f : F)
      → r ≡ some (some (k, f))
      → IsServed c rest
      → IsServed c (emit r rest)
  emitted_later c k r rest f e h = rw e (inr h)

  run-add :
      (s : Scheduler F) (k : String) (f : F) (calls : List (Call F))
      → contains k s.queues ≡ true
      → run s (add k f ∷ calls)
        ≡ run (record s { queues = insert k (push (queue_of s k) f) s.queues }) calls
  unfolding run
  run-add s k f calls h = ap (λ t. run t calls) (add_frame_known s k f h)

  run-next :
      (s : Scheduler F) (calls : List (Call F))
      → run s (next ∷ calls)
        ≡ emit (poll_loop (length s.order) s).1 (run (poll_loop (length s.order) s).0 calls)
  unfolding run poll
  run-next s calls = refl

  run_nearer :
      (s : Scheduler F) (c : String) (p : ℕ) (calls : List (Call F))
      → IsWaiting s c p
      → AllKnown s calls
      → turns (length s.order) s.index p < polls calls
      → IsServed c (run s calls)
  run_nearer s c p [] w known near = absurd (omega arith)
  run_nearer s c p (add k f ∷ calls) w known near =
      let t = record s { queues = insert k (push (queue_of s k) f) s.queues } in
      rw (run-add s k f calls known.0) (
        run_nearer t c p calls (IsWaiting-add s c p k f w)
          (AllKnown-insert k _ s t calls refl known.1) near)
  run_nearer s c p (next ∷ calls) w known near =
      let t = (poll_loop (length s.order) s).0 in
      let outcome =
        poll_loop-Outcome (length s.order) s c p w.first w.rest w.index w.place w.at w.waits
          (turns-lt (length s.order) s.index p w.index w.place) in
      rw (run-next s calls) (elim outcome [
        | served f e ↦ emitted c _ (run t calls) f e
        | nearer k f rest apart e order index turn queues ↦ emitted_later c k _ (run t calls) f e (
            run_nearer t c p calls (IsWaiting-nearer s t c p k rest w apart order index queues)
              (AllKnown-insert k rest s t calls queues known) (rw order (omega arith)))
      ])

  -- A camera with waiting frames is served before the polls are as many as the cameras, whichever
  -- frames of known cameras arrive between the polls and wherever the turn starts.
  pub run-IsServed :
      (s : Scheduler F) (c : String) (p : ℕ) (calls : List (Call F))
      → IsWaiting s c p
      → AllKnown s calls
      → length s.order ≤ polls calls
      → IsServed c (run s calls)
  run-IsServed s c p calls w known enough =
      run_nearer s c p calls w known
        (omega (arith, turns-lt (length s.order) s.index p w.index w.place))
