-- ===== src/SharedMemory/Results.antt =====
-- The result area of shared/memory.py: what P1 reads of the text that P2 wrote.
use mathlib.Core.List.{append_assoc}
use mathlib.Core.Option
use mathlib.Core.Path.{ap₂}
use computer_vision.Common.{
  ℕ, zero, suc, ◌+◌, ◌≤◌, ◌<◌, ◌^◌, ◌≡◌, ◌≢◌, refl, ap, ◌∙◌, Option, none, some, List, [], ◌∷◌,
  ◌++◌, arith, length, take, min, write_prefix, length-write_prefix, length-append, length-take,
  take-append, eqb, eqb_iff, true, Bool-cases, inl, inr,
}
use computer_vision.SharedMemory.Words.{Integer, natural, get_u64, get_i32, set_i32, set_u64}
use computer_vision.SharedMemory.{
  Slot, slot_a, slot_b, number, Segments, result_size, write_result, find_null, parse_result,
  read_result,
}
use computer_vision.SharedMemory.Protocol.Untouched.{write_result-words}

-- A text without null bytes; `json.dumps` escapes all control characters.
abbrev pub NoNull : List ℕ → Type 0
NoNull [] = Unit
NoNull (b ∷ bytes) = (0 < b) × NoNull bytes

NoNull-take : (n : ℕ) (bytes : List ℕ) → NoNull bytes → NoNull (take n bytes)
NoNull-take zero bytes h = tt
NoNull-take (suc n) [] h = tt
NoNull-take (suc n) (b ∷ bytes) h = (h.0, NoNull-take n bytes h.1)

take-min : (n : ℕ) (bytes : List ℕ) → take (min (length bytes) n) bytes ≡ take n bytes
take-min zero bytes = let e : min (length bytes) 0 ≡ 0 = omega arith in rw e
take-min (suc n) [] = let e : min 0 (suc n) ≡ 0 = omega arith in rw e
take-min (suc n) (b ∷ bytes) =
    let e : min (suc (length bytes)) (suc n) ≡ suc (min (length bytes) n) = omega arith in
    rw e (ap (◌∷◌ b) (take-min n bytes))

take_all : (n : ℕ) (bytes : List ℕ) → length bytes ≡ n → take n bytes ≡ bytes
take_all zero [] e = refl
take_all zero (b ∷ bytes) e = absurd (omega arith)
take_all (suc n) [] e = refl
take_all (suc n) (b ∷ bytes) e = ap (◌∷◌ b) (take_all n bytes (omega arith))

find_null-append :
    (bytes rest : List ℕ) → NoNull bytes → find_null (bytes ++ 0 ∷ rest) ≡ some (length bytes)
unfolding find_null
find_null-append [] rest h = refl
find_null-append (b ∷ bytes) rest h = ground (arith, find_null-append bytes rest h.1)

write_result-area :
    (s : Segments) (text : List ℕ) (i : Slot)
    → (write_result s text i).0.result
      ≡ write_prefix (take (min (length text) 8191) text ++ 0 ∷ []) s.result
unfolding write_result set_i32 set_u64
write_result-area s text slot_a = ground arith
write_result-area s text slot_b = ground arith

pub length-write_result :
    (s : Segments) (text : List ℕ) (i : Slot)
    → length s.result ≡ result_size
    → length (write_result s text i).0.result ≡ result_size
length-write_result s text i size =
    let cut = take (min (length text) 8191) text in
    rw (write_result-area s text i) (
      length-write_prefix (cut ++ 0 ∷ []) s.result
        (omega (arith, length-append cut (0 ∷ []), length-take (min (length text) 8191) text))
      ∙ size)

module _ {J : Type 0} (loads : List ℕ → Option J) where
  parse_result-append :
      (bytes rest : List ℕ)
      → NoNull bytes
      → 2 < length bytes
      → parse_result loads (bytes ++ 0 ∷ rest) ≡ loads bytes
  unfolding parse_result
  parse_result-append bytes rest h long =
      ground (arith, find_null-append bytes rest h, take-append bytes (0 ∷ rest))

  parse_result-area :
      (text area : List ℕ)
      → NoNull text
      → 2 < length text
      → length area ≡ result_size
      → parse_result loads
          (take result_size (write_prefix (take (min (length text) 8191) text ++ 0 ∷ []) area))
        ≡ loads (take 8191 text)
  parse_result-area text area h long size =
      let cut = take 8191 text in
      let bytes = cut ++ 0 ∷ [] in
      let len = length-take 8191 text in
      let full : length (write_prefix bytes area) ≡ result_size =
        length-write_prefix bytes area (omega (arith, length-append cut (0 ∷ []))) ∙ size in
      rw (take-min 8191 text, take_all result_size (write_prefix bytes area) full, append_assoc)
        (parse_result-append cut _ (NoNull-take 8191 text h) (omega arith))

  read_result_fresh :
      (s : Segments) (last : ℕ) (p : Option J)
      → get_u64 s.control 24 ≢ last
      → parse_result loads (take result_size s.result) ≡ p
      → read_result loads s last
        ≡ (get_u64 s.control 24, Option.map (λ j. (j, get_i32 s.control 20)) p)
  unfolding read_result
  read_result_fresh s last none h e = elim (Bool-cases (eqb (get_u64 s.control 24) last)) [
    | inl same ↦ absurd (h ((eqb_iff (get_u64 s.control 24) last).0 same))
    | inr other ↦ rw (other, e)
  ]
  read_result_fresh s last (some j) h e = elim (Bool-cases (eqb (get_u64 s.control 24) last)) [
    | inl same ↦ absurd (h ((eqb_iff (get_u64 s.control 24) last).0 same))
    | inr other ↦ rw (other, e)
  ]

  read_result_again :
      (s : Segments) (last : ℕ)
      → get_u64 s.control 24 ≡ last
      → read_result loads s last ≡ (last, none)
  unfolding read_result
  read_result_again s last e =
      let same : eqb (get_u64 s.control 24) last ≡ true =
        (eqb_iff (get_u64 s.control 24) last).1 e in
      rw same refl

  -- A result text without null bytes and longer than two bytes is read back once, with the slot that
  -- it was written for: it is parsed as written up to 8191 bytes, and cut there if it is longer. A second read with the number
  -- that the first one has returned gives nothing.
  pub read_result-write_result :
      (s : Segments) (text : List ℕ) (i : Slot) (last : ℕ)
      → NoNull text
      → 2 < length text
      → length s.result ≡ result_size
      → get_u64 s.control 24 + 1 < 2 ^ 64
      → last ≤ get_u64 s.control 24
      → (read_result loads (write_result s text i).0 last ≡ (
        get_u64 s.control 24 + 1,
        Option.map (λ j. (j, natural (number i))) (loads (take 8191 text)),
      ))
        × (read_result loads (write_result s text i).0 (get_u64 s.control 24 + 1)
            ≡ (get_u64 s.control 24 + 1, none))
  read_result-write_result s text i last h long size room seen =
      let (target, next, _) = write_result-words s text i room in
      let t = (write_result s text i).0 in
      let pairing : ℕ → Integer → ℕ × Option (J × Integer) =
        λ q z. (q, Option.map (λ j. (j, z)) (loads (take 8191 text))) in
      (
        read_result_fresh t last (loads (take 8191 text)) (omega arith)
              (rw (write_result-area s text i) (parse_result-area text s.result h long size))
            ∙ ap₂ pairing next target,
        read_result_again t (get_u64 s.control 24 + 1) next,
      )
