-- ===== src/Runtime/Collected.antt =====
-- The inner loop of `_run_pose`: it ends, and what it collects.
use mathlib.Core.List.{append_assoc, append-nil}
use computer_vision.Capture.LatestFrame.{age_ns}
use computer_vision.Common.{
  ℕ, zero, suc, ◌-◌, ◌≤◌, ◌<◌, ◌≡◌, refl, sym, ap, ◌∙◌, ◌⊎◌, inl, inr, Option, none, some,
  if◌then◌else◌, List, [], ◌∷◌, ◌++◌, length, length-append, leb, arith, Bool-cases, Numbers,
}
use computer_vision.Tracking.Kalman.{Arrays}
use computer_vision.Inference.PoseQueue.{BoundedPoseQueue, PoseRequest, get_request}
use computer_vision.Inference.PoseQueue.Accounts.{get_request-Taken}
use computer_vision.Inference.Rtmpose.{PoseTarget}
use computer_vision.Runtime.{is_fresh, collect_requests}

module _ (n : Numbers) (a : Arrays n) where
  abbrev pub Requests : Type 0
  Requests = List (PoseRequest (PoseTarget n))

  -- The queue after so many gets.
  abbrev pub after_gets : ℕ → BoundedPoseQueue (PoseTarget n) → BoundedPoseQueue (PoseTarget n)
  after_gets zero q = q
  after_gets (suc k) q = after_gets k (get_request (PoseTarget n) q).0

  -- The request, unless there is none or it is older than a second at the time `now`.
  abbrev pub if_fresh : ℕ → Option (PoseRequest (PoseTarget n)) → Requests
  if_fresh now none = []
  if_fresh now (some r) = if leb (age_ns r.content.frame now) 1000000000 then r ∷ [] else []

  -- What so many gets hand out that is fresh then, where the clock is read at `t - 1`, `t - 2` and so on.
  abbrev pub fresh_gets : ℕ → ℕ → (ℕ → ℕ) → BoundedPoseQueue (PoseTarget n) → Requests
  fresh_gets zero t clock q = []
  fresh_gets (suc k) t clock q =
      if_fresh (clock (t - 1)) (get_request (PoseTarget n) q).1
      ++ fresh_gets k (t - 1) clock (get_request (PoseTarget n) q).0

  -- The loop has ended, with the queue and the requests that it leaves.
  pub record Collected (fuel : ℕ) (clock : ℕ → ℕ) (q : BoundedPoseQueue (PoseTarget n))
      (rs : List (PoseRequest (PoseTarget n)))
      (o : Option (BoundedPoseQueue (PoseTarget n) × List (PoseRequest (PoseTarget n))))
      : Type 0 where
    pub left : BoundedPoseQueue (PoseTarget n)
    pub requests : List (PoseRequest (PoseTarget n))
    pub returned : o ≡ some (left, requests)
    pub at_most : length requests ≤ 8
    pub ended : (length requests ≡ 8) ⊎ (left.heap ≡ [])
    pub rounds : ℕ
    pub few_rounds : rounds < fuel
    pub gone : left ≡ after_gets rounds q
    pub fresh : requests ≡ rs ++ fresh_gets rounds fuel clock q
    pub fewer : length left.heap ≤ length q.heap
    pub same_size : left.maxsize ≡ q.maxsize

  -- What is collected after one request has left the queue.
  after :
      (fuel : ℕ) (q next : BoundedPoseQueue (PoseTarget n)) (clock : ℕ → ℕ)
      (rs one : List (PoseRequest (PoseTarget n)))
      {o : Option (BoundedPoseQueue (PoseTarget n) × List (PoseRequest (PoseTarget n)))}
      → (get_request (PoseTarget n) q).0 ≡ next
      → if_fresh (clock fuel) (get_request (PoseTarget n) q).1 ≡ one
      → suc (length next.heap) ≡ length q.heap
      → next.maxsize ≡ q.maxsize
      → Collected fuel clock next (rs ++ one) o
      → Collected (suc fuel) clock q rs o
  after fuel q next clock rs one e kept less size c = record {
    left = c.left;
    requests = c.requests;
    returned = c.returned;
    at_most = c.at_most;
    ended = c.ended;
    rounds = suc c.rounds;
    few_rounds = omega (arith, c.few_rounds);
    gone = c.gone ∙ ap (after_gets c.rounds) (sym e);
    fresh =
        c.fresh
        ∙ append_assoc rs one (fresh_gets c.rounds fuel clock next)
        ∙ ap (◌++◌ rs) (later (suc fuel - 1) (omega arith));
    fewer = omega (arith, c.fewer);
    same_size = c.same_size ∙ size;
  }
    where
      later :
          (t : ℕ)
          → t ≡ fuel
          → one ++ fresh_gets c.rounds fuel clock next
            ≡ if_fresh (clock t) (get_request (PoseTarget n) q).1
              ++ fresh_gets c.rounds t clock (get_request (PoseTarget n) q).0
      later t same = rw (same, e, kept) refl

  -- Where no request is put in between, the loop ends after fewer rounds than the fuel that it is given,
  -- one for each request of the queue and one more. It has collected eight requests or emptied the queue,
  -- never more than eight. The queue is left as so many gets leave it, and the requests are those that
  -- these gets hand out, in their order, without those that are older than a second at the reading of the
  -- clock that follows their own get.
  pub collect_requests-Collected :
      (fuel : ℕ) (clock : ℕ → ℕ) (q : BoundedPoseQueue (PoseTarget n))
      (rs : List (PoseRequest (PoseTarget n)))
      → length q.heap < fuel
      → length rs ≤ 8
      → Collected fuel clock q rs (collect_requests n a fuel clock q rs)
  unfolding collect_requests
  collect_requests-Collected zero clock q rs h m = absurd (omega arith)
  collect_requests-Collected (suc fuel) clock q rs h m = elim (Bool-cases (leb 8 (length rs))) [
    | inl eight ↦
        rw (collect_requests, eight)
          (record {
            left = q;
            requests = rs;
            returned = refl;
            at_most = m;
            ended = inl (ground arith);
            rounds = 0;
            few_rounds = omega arith;
            gone = refl;
            fresh = sym (append-nil rs);
            fewer = omega arith;
            same_size = refl;
          })
    | inr room ↦ elim (get_request-Taken (PoseTarget n) q) [
      | inl (empty, nothing, same) ↦
          rw (collect_requests, room, nothing, same)
            (record {
              left = q;
              requests = rs;
              returned = refl;
              at_most = m;
              ended = inr empty;
              rounds = 0;
              few_rounds = omega arith;
              gone = refl;
              fresh = sym (append-nil rs);
              fewer = omega arith;
              same_size = refl;
            })
      | inr (r, taken, less, size) ↦
          let next = (get_request (PoseTarget n) q).0 in
          rw (collect_requests, room, taken)
            (elim (Bool-cases (is_fresh n a (clock fuel) r)) [
              | inl kept ↦ rw kept (
                  after fuel q next clock rs (r ∷ []) refl (rw (taken, kept) refl) less size (
                    collect_requests-Collected fuel clock next (rs ++ r ∷ []) (omega (arith, less))
                      (ground (arith, length-append rs (r ∷ [])))))
              | inr stale ↦ rw stale (
                  after fuel q next clock rs [] refl (rw (taken, stale) refl) less size (
                    rw (append-nil rs)
                      (collect_requests-Collected fuel clock next rs (omega (arith, less)) m)))
            ])
    ]
  ]
