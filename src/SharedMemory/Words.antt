-- ===== src/SharedMemory/Words.antt =====
-- The control segment of shared/memory.py: 64 bytes that two processes share, read and written as
-- little-endian words. A segment is a function from addresses to bytes, and a fresh one is zero.
use mathlib.Core.Bool.{◌&&◌}
use computer_vision.Common.{
  refl, ℕ, ◌+◌, ◌-◌, ◌*◌, ◌/◌, ◌%◌, ◌^◌, ◌≤◌, ◌<◌, ◌≡◌, ◌⊎◌, arith, leb, ltb, eqb, if◌then◌else◌,
}
use computer_vision.Errors.{Error, Result, ok, err}

-- An `int` of Python: `minus_one_minus n` is -(n + 1).
pub data Integer : Type 0 where
  natural : ℕ → Integer
  minus_one_minus : ℕ → Integer

abbrev pub Control : Type 0
Control = ℕ → ℕ

abbrev pub blank : Control
blank a = 0

-- `value.to_bytes(width, 'little')` stored at `offset`.
unfoldable pub store_word : ℕ → Control → ℕ → ℕ → Control
store_word width c offset value a =
    if leb offset a && ltb a (offset + width) then (value / 256 ^ (a - offset)) % 256 else c a

unfoldable pub set_byte : Control → ℕ → ℕ → Control
set_byte c offset value a = if eqb a offset then value else c a

unfoldable pub get_u32 : Control → ℕ → ℕ
get_u32 c o = c o + 256 * (c (o + 1) + 256 * (c (o + 2) + 256 * c (o + 3)))

unfoldable pub get_u64 : Control → ℕ → ℕ
unfolding get_u32
get_u64 c o = get_u32 c o + 2 ^ 32 * get_u32 c (o + 4)

-- `to_bytes` raises `OverflowError` where the value does not fit.
unfoldable pub set_u64 : Control → ℕ → ℕ → Result Control
unfolding store_word
set_u64 c offset value =
    if ltb value (2 ^ 64) then ok (store_word 8 c offset value) else err Error.overflow_error

-- A signed word, in two's complement.
unfoldable pub get_i32 : Control → ℕ → Integer
unfolding get_u32
get_i32 c o =
    let u = get_u32 c o in if ltb u (2 ^ 31) then natural u else minus_one_minus (2 ^ 32 - 1 - u)

unfoldable pub set_i32 : Control → ℕ → Integer → Result Control
unfolding store_word
set_i32 c offset (natural n) =
    if ltb n (2 ^ 31) then ok (store_word 4 c offset n) else err Error.overflow_error
set_i32 c offset (minus_one_minus n) =
    if ltb n (2 ^ 31) then ok (store_word 4 c offset (2 ^ 32 - 1 - n)) else err Error.overflow_error

-- Each byte of a stored word, and every byte outside it.
pub store_word_inside :
    (n : ℕ) (c : Control) (o v i : ℕ) → i < n → store_word n c o v (o + i) ≡ (v / 256 ^ i) % 256
unfolding store_word
store_word_inside n c o v i h = let e : o + i - o ≡ i = omega arith in ground (arith, e)

pub store_word_outside :
    (n : ℕ) (c : Control) (o v a : ℕ) → (a < o) ⊎ (o + n ≤ a) → store_word n c o v a ≡ c a
unfolding store_word
store_word_outside n c o v a h = ground arith

-- The same byte, at an address that is equal to `o + i`.
stored_at :
    (n : ℕ) (c : Control) (o v i a : ℕ)
    → a ≡ o + i
    → i < n
    → store_word n c o v a ≡ (v / 256 ^ i) % 256
stored_at n c o v i a e h = rw e (store_word_inside n c o v i h)

digits :
    (b0 b1 b2 b3 v : ℕ)
    → b0 ≡ v % 256
    → b1 ≡ (v / 256) % 256
    → b2 ≡ (v / 65536) % 256
    → b3 ≡ (v / 16777216) % 256
    → b0 + 256 * (b1 + 256 * (b2 + 256 * b3)) ≡ v % 2 ^ 32
digits b0 b1 b2 b3 v p q r s = omega arith

pub get_u32-store_word : (c : Control) (o v : ℕ) → get_u32 (store_word 4 c o v) o ≡ v % 2 ^ 32
unfolding get_u32
get_u32-store_word c o v =
    digits _ _ _ _ v (omega (arith, stored_at 4 c o v 0 o (omega arith) (omega arith)))
      (stored_at 4 c o v 1 (o + 1) refl (omega arith))
      (stored_at 4 c o v 2 (o + 2) refl (omega arith))
      (stored_at 4 c o v 3 (o + 3) refl (omega arith))

low_half : (c : Control) (o v : ℕ) → get_u32 (store_word 8 c o v) o ≡ v % 2 ^ 32
unfolding get_u32
low_half c o v =
    digits _ _ _ _ v (omega (arith, stored_at 8 c o v 0 o (omega arith) (omega arith)))
      (stored_at 8 c o v 1 (o + 1) refl (omega arith))
      (stored_at 8 c o v 2 (o + 2) refl (omega arith))
      (stored_at 8 c o v 3 (o + 3) refl (omega arith))

high_half : (c : Control) (o v : ℕ) → get_u32 (store_word 8 c o v) (o + 4) ≡ (v / 2 ^ 32) % 2 ^ 32
unfolding get_u32
high_half c o v =
    digits _ _ _ _ (v / 2 ^ 32)
      (omega (arith, stored_at 8 c o v 4 (o + 4) (omega arith) (omega arith)))
      (omega (arith, stored_at 8 c o v 5 (o + 4 + 1) (omega arith) (omega arith)))
      (omega (arith, stored_at 8 c o v 6 (o + 4 + 2) (omega arith) (omega arith)))
      (omega (arith, stored_at 8 c o v 7 (o + 4 + 3) (omega arith) (omega arith)))

pub set_u64_stored :
    (c c' : Control) (o v : ℕ) → set_u64 c o v ≡ ok c' → (c' ≡ store_word 8 c o v) × (v < 2 ^ 64)
unfolding set_u64
set_u64_stored c c' o v e = (ground arith, ground arith)

pub get_u64-store_word : (c : Control) (o v : ℕ) → v < 2 ^ 64 → get_u64 (store_word 8 c o v) o ≡ v
unfolding get_u64
get_u64-store_word c o v h = omega (arith, low_half c o v, high_half c o v)

-- A 64-bit word that is stored anywhere in the segment is read back from there, it fits its word,
-- and no byte outside its eight changes.
pub get_u64-set_u64 :
    (c c' : Control) (o v a : ℕ)
    → set_u64 c o v ≡ ok c'
    → (a < o) ⊎ (o + 8 ≤ a)
    → (get_u64 c' o ≡ v) × (v < 2 ^ 64) × (c' a ≡ c a)
get_u64-set_u64 c c' o v a e out =
    let (stored, fits) = set_u64_stored c c' o v e in
    (rw stored (get_u64-store_word c o v fits), fits, rw stored (store_word_outside 8 c o v a out))

-- A signed word that is stored anywhere in the segment is read back from there, negative ones in
-- two's complement, and no byte outside its four changes.
pub get_i32-set_i32 :
    (c c' : Control) (o a : ℕ) (n : Integer)
    → set_i32 c o n ≡ ok c'
    → (a < o) ⊎ (o + 4 ≤ a)
    → (get_i32 c' o ≡ n) × (c' a ≡ c a)
unfolding set_i32 get_i32
get_i32-set_i32 c c' o a (natural n) e out =
    (ground (arith, get_u32-store_word c o n), ground (arith, store_word_outside 4 c o n a out))
get_i32-set_i32 c c' o a (minus_one_minus n) e out = (
  ground (arith, get_u32-store_word c o (2 ^ 32 - 1 - n)),
  ground (arith, store_word_outside 4 c o (2 ^ 32 - 1 - n) a out),
)
