-- ===== src/Inference/PoseQueue/Kept/Calls.antt =====
-- Which requests of a queue wait, were handed out, or were dropped.
use mathlib.Core.Bool.{◌||◌}
use computer_vision.Common.{
  ℕ, suc, ◌+◌, ◌≤◌, ◌<◌, ◌≡◌, refl, ap, ◌∙◌, inl, inr, Bool, false, Option, none, some, List, [],
  ◌∷◌, ◌++◌, length, length-append, get_elem?, ltb, arith, Bool-cases,
}
use computer_vision.Inference.PoseQueue.{
  PoseRequest, Item, item_of, BoundedPoseQueue, heappop, pop_last, worst_from, put_full, put_on,
  put, got, get_request,
}
use computer_vision.Inference.PoseQueue.Accounts.{
  IsAccounted, QueueCall, put_call, get_call, is_error, put-Puts, get_request-IsAccounted,
}
use computer_vision.Inference.PoseQueue.Kept.{
  one, count, count_items, count-replaced, count-heappush, count-pop_last, count-after_pop,
  worst_from-get_elem,
}

module _ (Content : Type 0) where
  abbrev pub Requests : Type 0
  Requests = List (PoseRequest Content)

  -- What a put changes: the requests that it drops are counted, and whatever is asked of requests, as many
  -- of them that pass wait or are dropped as waited before or are put.
  record Drops (s : BoundedPoseQueue Content) (r : PoseRequest Content)
      (o : BoundedPoseQueue Content) : Type 0 where
    out : Requests
    counted : o.dropped ≡ length out + s.dropped
    same :
        (f : PoseRequest Content → Bool)
        → count_items Content f o.heap + count Content f out
          ≡ count_items Content f s.heap + one Content f r

  put_full-Drops :
      (s : BoundedPoseQueue Content) (r : PoseRequest Content) (w : ℕ × Item Content)
      → get_elem? s.heap w.0 ≡ some w.1
      → Drops s r (put_full Content s (item_of Content r) w).0
  put_full-Drops s r w h = elim (Bool-cases (ltb w.1.rank (item_of Content r).rank)) [
    | inl worse ↦ rw worse (record { out = r ∷ []; counted = omega arith; same = λ f. omega arith })
    | inr fine ↦ rw fine (record {
      out = w.1.request ∷ [];
      counted = omega arith;
      same = λ f. omega (arith, count-replaced Content f s.heap w.0 (item_of Content r) w.1 h);
    })
  ]

  put-Drops :
      (s : BoundedPoseQueue Content) (r : PoseRequest Content)
      → 0 < s.maxsize
      → Drops s r (put Content s r).0
  unfolding put
  put-Drops s r h = elim (Bool-cases (ltb (length s.heap) s.maxsize)) [
    | inl room ↦ rw room (record {
      out = [];
      counted = omega arith;
      same = λ f. omega (arith, count-heappush Content f s.heap (item_of Content r));
    })
    | inr full ↦ rw full (go s.heap refl (ground (arith, h)))
  ]
    where
      go :
          (heap : List (Item Content))
          → s.heap ≡ heap
          → 0 < length s.heap
          → Drops s r (put_on Content s (item_of Content r) heap).0
      go [] e some_wait = absurd (omega (arith, some_wait, ap length e))
      go (first ∷ heap) e some_wait =
          let there : get_elem? s.heap 0 ≡ some first = ap (λ h. get_elem? h 0) e in
          put_full-Drops s r (worst_from Content 1 (0, first) heap)
            (worst_from-get_elem Content s.heap 1 (0, first) heap there (λ k. later heap e k))
        where
          later :
              (heap : List (Item Content))
              → s.heap ≡ first ∷ heap
              → (k : ℕ) → get_elem? s.heap (1 + k) ≡ get_elem? heap k
          later heap e k = ap (get_elem? s.heap) (omega arith) ∙ ap (λ h. get_elem? h (suc k)) e

  -- The requests handed out, with what one more call answers.
  abbrev pub with_got : Option (PoseRequest Content) → Requests → Requests
  with_got none gets = gets
  with_got (some r) gets = r ∷ gets

  -- What a get changes: the request that it hands out no longer waits.
  record Hands (s : BoundedPoseQueue Content)
      (o : BoundedPoseQueue Content × Option (PoseRequest Content)) : Type 0 where
    counted : o.0.dropped ≡ s.dropped
    same :
        (f : PoseRequest Content → Bool) (gets : Requests)
        → count_items Content f o.0.heap + count Content f (with_got o.1 gets)
          ≡ count_items Content f s.heap + count Content f gets

  get_request-Hands : (s : BoundedPoseQueue Content) → Hands s (get_request Content s)
  unfolding get_request heappop
  get_request-Hands s = go s.heap refl
    where
      go :
          (heap : List (Item Content))
          → s.heap ≡ heap
          → Hands s (got Content s (heappop Content heap))
      go [] e = record { counted = refl; same = λ f gets. refl }
      go (x ∷ heap) e = record {
        counted = refl;
        same = λ f gets. omega (
          arith,
          ap (count_items Content f) e,
          count-pop_last Content f x heap,
          count-after_pop Content f (pop_last Content x heap),
        );
      }

  count-append :
      (f : PoseRequest Content → Bool) (rs qs : Requests)
      → count Content f (rs ++ qs) ≡ count Content f rs + count Content f qs
  count-append f [] qs = omega arith
  count-append f (r ∷ rs) qs = omega (arith, count-append f rs qs)

  -- Of the requests that were put, those that do not wait were handed out or are among the dropped ones,
  -- of which there are as many as the queue counts: whatever is asked of requests, as many pass of the ones
  -- as of the others.
  pub record IsKept (s : BoundedPoseQueue Content) (puts gets : Requests) : Type 0 where
    pub positive : 0 < s.maxsize
    pub bounded : length s.heap ≤ s.maxsize
    pub dropped : Requests
    pub counted : s.dropped ≡ length dropped
    pub kept :
        (f : PoseRequest Content → Bool)
        → count Content f puts
          ≡ count_items Content f s.heap + count Content f gets + count Content f dropped

  -- The queue with the requests that were put and handed out so far, and whether a put has raised.
  pub record Trace : Type 0 where
    pub queue : BoundedPoseQueue Content
    pub puts : Requests
    pub gets : Requests
    pub raised : Bool

  abbrev pub trace : QueueCall Content → Trace → Trace
  trace (put_call r) t = record t {
    queue = (put Content t.queue r).0;
    puts = r ∷ t.puts;
    raised = t.raised || is_error Content (put Content t.queue r).1;
  }
  trace get_call t = record t {
    queue = (get_request Content t.queue).0;
    gets = with_got (get_request Content t.queue).1 t.gets;
  }

  abbrev pub trace_all : List (QueueCall Content) → Trace → Trace
  trace_all [] t = t
  trace_all (c ∷ calls) t = trace_all calls (trace c t)

  -- The numbers alone.
  balanced_of :
      (t : Trace)
      → IsKept t.queue t.puts t.gets
      → IsAccounted Content t.queue (length t.queue.heap + 0 + t.queue.dropped) 0
  balanced_of t h = record { positive = h.positive; bounded = h.bounded; balanced = refl }

  trace-IsKept :
      (c : QueueCall Content) (t : Trace)
      → IsKept t.queue t.puts t.gets
      → t.raised ≡ false
      → IsKept (trace c t).queue (trace c t).puts (trace c t).gets × ((trace c t).raised ≡ false)
  trace-IsKept (put_call r) t h e =
      let p =
        put-Puts Content t.queue (length t.queue.heap + 0 + t.queue.dropped) 0 r
          (balanced_of t h) in
      let d = put-Drops t.queue r h.positive in
      (
        record {
          positive = p.accounted.positive;
          bounded = p.accounted.bounded;
          dropped = d.out ++ h.dropped;
          counted = omega (arith, d.counted, h.counted, length-append d.out h.dropped);
          kept = λ f. omega (arith, d.same f, h.kept f, count-append f d.out h.dropped);
        },
        rw (e, p.answer) refl,
      )
  trace-IsKept get_call t h e =
      let a =
        get_request-IsAccounted Content t.queue (length t.queue.heap + 0 + t.queue.dropped) 0
          (balanced_of t h) in
      let d = get_request-Hands t.queue in
      (
        record {
          positive = a.positive;
          bounded = a.bounded;
          dropped = h.dropped;
          counted = d.counted ∙ h.counted;
          kept = λ f. omega (arith, d.same f t.gets, h.kept f);
        },
        e,
      )

  -- From a queue that has kept its requests, such as an empty one, through any puts and gets in any order,
  -- no put raises, the queue keeps its bound, and every request that was put waits, was handed out, or is one
  -- of the dropped ones, of which there are as many as the queue counts: none is lost and none is doubled,
  -- whatever the requests are told apart by.
  pub trace_all-IsKept :
      (calls : List (QueueCall Content)) (t : Trace)
      → IsKept t.queue t.puts t.gets
      → t.raised ≡ false
      → IsKept (trace_all calls t).queue (trace_all calls t).puts (trace_all calls t).gets
        × ((trace_all calls t).raised ≡ false)
  trace_all-IsKept [] t h e = (h, e)
  trace_all-IsKept (c ∷ calls) t h e =
      let next = trace-IsKept c t h e in trace_all-IsKept calls (trace c t) next.0 next.1
