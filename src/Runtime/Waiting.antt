-- ===== src/Runtime/Waiting.antt =====
-- `_put_latest`: what waits in a bounded queue once values were put into it.
use computer_vision.Common.{
  ℕ, ◌+◌, ◌-◌, ◌≤◌, ◌<◌, ◌≡◌, sym, ap, ◌∙◌, inl, inr, false, Option, none, some, List, [], ◌∷◌,
  ◌++◌, length, drop, length-append, length-drop, drop-append_le, drop-drop, drop_at, arith,
  Bool-cases,
}
use mathlib.Core.List.{append_assoc, append-nil}
use computer_vision.Runtime.{Queue, is_full, put_latest, without_first}

module _ {ℓ} {A : Type ℓ} where
  -- A bound, and a queue within it.
  pub record IsWithin (q : Queue A) : Type 0 where
    pub positive : 0 < q.maxsize
    pub bounded : length q.items ≤ q.maxsize

  abbrev pub newest : ℕ → List A → List A
  newest m xs = drop (length xs - m) xs

  abbrev pub put_all : Option (Queue A) → List A → Option (Queue A)
  put_all none vs = none
  put_all (some q) [] = some q
  put_all (some q) (v ∷ vs) = put_all (put_latest q v) vs

  pub length-newest : (m : ℕ) (xs : List A) → length (newest m xs) ≤ m
  length-newest m xs = omega (arith, length-drop (length xs - m) xs)

  newest-put_full :
      (m : ℕ) (xs : List A) (v : A)
      → length xs ≡ m
      → 0 < m
      → newest m (xs ++ v ∷ []) ≡ drop 1 xs ++ v ∷ []
  newest-put_full m xs v e h =
      drop_at (length (xs ++ v ∷ []) - m) 1 (xs ++ v ∷ [])
        (omega (arith, length-append xs (v ∷ [])))
      ∙ drop-append_le 1 xs (v ∷ []) (omega arith)

  newest-put_room :
      (m : ℕ) (xs : List A) (v : A) → length xs < m → newest m (xs ++ v ∷ []) ≡ xs ++ v ∷ []
  newest-put_room m xs v h =
      drop_at (length (xs ++ v ∷ []) - m) 0 (xs ++ v ∷ [])
        (omega (arith, length-append xs (v ∷ [])))

  pub put_latest-newest :
      (q : Queue A) (v : A)
      → IsWithin q
      → put_latest q v ≡ some (record q { items = newest q.maxsize (q.items ++ v ∷ []) })
  unfolding put_latest
  put_latest-newest q v h = elim (Bool-cases (is_full q)) [
    | inl full ↦
        let room : is_full (without_first q) ≡ false =
          ground (arith, length-drop 1 q.items, h.positive, h.bounded) in
        rw (full, room)
          (ap (λ items. some (record q { items = items }))
            (sym (newest-put_full q.maxsize q.items v (ground (arith, h.bounded)) h.positive)))
    | inr room ↦
        rw (room, room)
          (ap (λ items. some (record q { items = items }))
            (sym (newest-put_room q.maxsize q.items v (ground (arith, h.positive)))))
  ]

  newest-append : (m : ℕ) (xs ys : List A) → newest m (newest m xs ++ ys) ≡ newest m (xs ++ ys)
  newest-append m xs ys =
      let k = length xs - m in
      ap (drop (length (drop k xs ++ ys) - m)) (sym (drop-append_le k xs ys (omega arith)))
      ∙ drop-drop (length (drop k xs ++ ys) - m) k (xs ++ ys)
      ∙ drop_at (k + (length (drop k xs ++ ys) - m)) (length (xs ++ ys) - m) (xs ++ ys)
          (omega (arith, length-append (drop k xs) ys, length-append xs ys, length-drop k xs))

  -- Values put one after another into a queue with a bound, which is kept: none is refused, and what
  -- waits afterwards are the newest of the old and the new values, as many as the bound, in their order.
  pub put_all-newest :
      (q : Queue A) (vs : List A)
      → IsWithin q
      → put_all (some q) vs ≡ some (record q { items = newest q.maxsize (q.items ++ vs) })
  put_all-newest q [] h =
      ap (λ items. some (record q { items = items }))
        (sym (
          drop_at (length (q.items ++ []) - q.maxsize) 0 (q.items ++ [])
            (omega (arith, length-append q.items [], h.bounded))
          ∙ append-nil q.items))
  put_all-newest q (v ∷ vs) h =
      let items = newest q.maxsize (q.items ++ v ∷ []) in
      ap (λ o. put_all o vs) (put_latest-newest q v h)
      ∙ put_all-newest (record q { items = items }) vs
          (record { positive = h.positive; bounded = length-newest q.maxsize (q.items ++ v ∷ []) })
      ∙ ap (λ xs. some (record q { items = xs }))
          (newest-append q.maxsize (q.items ++ v ∷ []) vs
            ∙ ap (newest q.maxsize) (append_assoc q.items (v ∷ []) vs))
