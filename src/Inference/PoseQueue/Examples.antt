-- ===== src/Inference/PoseQueue/Examples.antt =====
-- A queue of two requests at most.
use computer_vision.Common.{ℕ, ◌≡◌, refl, false, some, List, [], ◌∷◌, arith}
use computer_vision.Inference.PoseQueue.{
  PosePriority, PoseRequest, put, get_request, heappush, heappop, heapify, sift_down, sift_up,
  sift_all, worst_from,
}
use computer_vision.Inference.PoseQueue.Accounts.{QueueCall, put_call, get_call}
use computer_vision.Inference.PoseQueue.Kept.Calls.{IsKept, Trace, trace_all, trace_all-IsKept}

abbrev asked : PosePriority → ℕ → PoseRequest ℕ
asked p at = record { priority = p; requested_at_monotonic_ns = at; content = at }

abbrev two_places : Trace ℕ
two_places = record {
  queue = record { maxsize = 2; heap = []; dropped = 0 };
  puts = [];
  gets = [];
  raised = false;
}

two_places-IsKept : IsKept ℕ two_places.queue [] []
two_places-IsKept = record {
  positive = omega arith;
  bounded = omega arith;
  dropped = [];
  counted = refl;
  kept = λ f. refl;
}

abbrev busy : List (QueueCall ℕ)
busy =
    put_call (asked PosePriority.low 1)
    ∷ put_call (asked PosePriority.medium 2)
    ∷ put_call (asked PosePriority.high 3)
    ∷ get_call
    ∷ []

trace_all-IsKept_example :
    IsKept ℕ
      (trace_all ℕ busy two_places).queue
      (trace_all ℕ busy two_places).puts
      (trace_all ℕ busy two_places).gets
    × ((trace_all ℕ busy two_places).raised ≡ false)
trace_all-IsKept_example = trace_all-IsKept ℕ busy two_places two_places-IsKept refl

-- The request of high priority takes the place of the one of low priority, and comes first.
next_served :
    (get_request ℕ (trace_all ℕ busy two_places).queue).1 ≡ some (asked PosePriority.medium 2)
unfolding put get_request heappush heappop heapify sift_down sift_up sift_all worst_from
next_served = refl
