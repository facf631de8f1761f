-- ===== src/RoundRobin/Turns.antt =====
-- One poll: it serves the camera asked about, or comes nearer to its place in the order.
use mathlib.Core.Bool.{false≢true}
use native.Mathlib.Decide.{dec_lt}
use native.Mathlib.Nat.{mod-eq_of_lt, mod_self}
use computer_vision.Common.{
  ℕ, zero, suc, ◌+◌, ◌-◌, ◌%◌, ◌<◌, ◌≡◌, ◌≢◌, refl, sym, ap, ◌∙◌, inl, inr, String, Option, some,
  List, [], ◌∷◌, arith, length, get_elem?, get_elem?-lt, leb, insert, lookup-insert,
  lookup-insert_self, ◌==◌, text_key, if◌then◌else◌, Bool-cases, List-cases,
}
use computer_vision.RoundRobin.{Scheduler, queue_of, advance, poll_loop}

-- How many cameras are looked at before position `p`, from position `i`, among `n`.
abbrev pub turns : ℕ → ℕ → ℕ → ℕ
turns n i p = if leb i p then p - i else p + n - i

pub turns-lt : (n i p : ℕ) → i < n → p < n → turns n i p < n
turns-lt n i p hi hp = ground arith

turns-advance : (n i p : ℕ) → i < n → p < n → i ≢ p → suc (turns n ((i + 1) % n) p) ≡ turns n i p
turns-advance n i p hi hp ne = elim (dec_lt (i + 1) n) [
  | yes inside ↦ let e : (i + 1) % n ≡ i + 1 = mod-eq_of_lt inside in rw e (ground arith)
  | no last ↦
      let e : i + 1 ≡ n = omega arith in
      let z : (i + 1) % n ≡ 0 = rw e (mod_self n) in rw z (ground arith)
]

pub mod-lt_pos : (n i : ℕ) → 0 < n → (i + 1) % n < n
mod-lt_pos n i h = omega arith

some_injective : (j k : String) → some j ≡ some k → j ≡ k
some_injective j k e = cc

module _ {ℓ} {F : Type ℓ} where
  pub queue_of-insert_self :
      (s t : Scheduler F) (k : String) (q : List F)
      → t.queues ≡ insert k q s.queues
      → queue_of t k ≡ q
  unfolding queue_of
  queue_of-insert_self s t k q e = ground (arith, lookup-insert_self k q s.queues)

  pub queue_of-insert_ne :
      (s t : Scheduler F) (k c : String) (q : List F)
      → t.queues ≡ insert k q s.queues
      → k ≢ c
      → queue_of t c ≡ queue_of s c
  unfolding queue_of
  queue_of-insert_ne s t k c q e h =
      ground (arith, lookup-insert k c q s.queues, text_key.same_iff k c)

  -- One poll either serves camera `c` at position `p`, or serves another one and comes nearer to `p`.
  pub data Outcome (s : Scheduler F) (c : String) (p : ℕ)
      (r : Scheduler F × Option (Option (String × F))) : Type ℓ where
    served : (f : F) → r.1 ≡ some (some (c, f)) → Outcome s c p r
    nearer :
        (k : String) (f : F) (rest : List F)
        → k ≢ c
        → r.1 ≡ some (some (k, f))
        → r.0.order ≡ s.order
        → r.0.index < length s.order
        → turns (length s.order) r.0.index p < turns (length s.order) s.index p
        → r.0.queues ≡ insert k rest s.queues
        → Outcome s c p r

  -- The round at the index: an empty queue is passed, another one is served.
  pub poll_loop_passes :
      (rounds : ℕ) (s : Scheduler F) (k : String)
      → get_elem? s.order s.index ≡ some k
      → queue_of s k ≡ []
      → poll_loop (suc rounds) s ≡ poll_loop rounds (advance s)
  unfolding poll_loop
  poll_loop_passes rounds s k e q = ground arith

  pub poll_loop_serves :
      (rounds : ℕ) (s : Scheduler F) (k : String) (f : F) (rest : List F)
      → get_elem? s.order s.index ≡ some k
      → queue_of s k ≡ f ∷ rest
      → poll_loop (suc rounds) s
        ≡ (record (advance s) { queues = insert k rest s.queues }, some (some (k, f)))
  unfolding poll_loop
  poll_loop_serves rounds s k f rest e q = ground arith

  -- What holds after an empty queue was passed holds before it.
  later :
      (s : Scheduler F) (c : String) (p : ℕ) (r : Scheduler F × Option (Option (String × F)))
      → s.index < length s.order
      → p < length s.order
      → s.index ≢ p
      → Outcome (advance s) c p r
      → Outcome s c p r
  later s c p r hi hp ne (served f e) = served f e
  later s c p r hi hp ne (nearer k f rest other e order index turn queues) =
      nearer k f rest other e order index
        (omega (arith, turns-advance (length s.order) s.index p hi hp ne)) queues

  cons≢nil : (f : F) (rest q : List F) → q ≡ f ∷ rest → q ≢ []
  cons≢nil f rest q e h = cc

  pub poll_loop-Outcome :
      (rounds : ℕ) (s : Scheduler F) (c : String) (p : ℕ) (g : F) (gs : List F)
      → s.index < length s.order
      → p < length s.order
      → get_elem? s.order p ≡ some c
      → queue_of s c ≡ g ∷ gs
      → turns (length s.order) s.index p < rounds
      → Outcome s c p (poll_loop rounds s)
  unfolding queue_of
  poll_loop-Outcome zero s c p g gs hi hp at full near = absurd (omega arith)
  poll_loop-Outcome (suc rounds) s c p g gs hi hp at full near =
      let (k, here) = get_elem?-lt s.order s.index hi in
      elim (List-cases (queue_of s k)) [
        | inl empty ↦
            let ne : s.index ≢ p = λ e. cons≢nil g gs (queue_of s c) full (
              ap (queue_of s) (some_injective c k (sym at ∙ ap (get_elem? s.order) (sym e) ∙ here))
              ∙ empty) in
            rw (poll_loop_passes rounds s k here empty) (
              later s c p _ hi hp ne (
                poll_loop-Outcome rounds (advance s) c p g gs
                  (mod-lt_pos (length s.order) s.index (omega arith)) hp at full
                  (omega (arith, turns-advance (length s.order) s.index p hi hp ne))))
        | inr (f, rest, found) ↦
            rw (poll_loop_serves rounds s k f rest here found) (elim (Bool-cases (k == c)) [
              | inl same ↦
                  served f
                    (ap (λ (j : String). some (some (j, f))) ((text_key.same_iff k c).0 same))
              | inr other ↦
                  let apart : k ≢ c = λ e. false≢true (sym other ∙ (text_key.same_iff k c).1 e) in
                  let ne : s.index ≢ p =
                    λ e. apart (some_injective k c (sym here ∙ ap (get_elem? s.order) e ∙ at)) in
                  nearer k f rest apart refl refl
                    (mod-lt_pos (length s.order) s.index (omega arith))
                    (omega (arith, turns-advance (length s.order) s.index p hi hp ne)) refl
            ])
      ]
