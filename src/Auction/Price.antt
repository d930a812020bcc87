-- ===== src/Auction/Price.antt =====
-- `effectivePrice` on bids that pass validation: no overflow, and the documented formula.
use native.Mathlib.Nat.{mul-le-mul_left}
use adserver.Common.{
  ℕ, ◌+◌, ◌*◌, ◌/◌, ◌%◌, ◌^◌, ◌≤◌, ◌<◌, ◌≡◌, ap, arith, refl, none, Bool, true, false, some,
  if◌then◌else◌,
}
use adserver.Common.Int.{pos, ℤ, ◌≤ℤ◌, pos_part, negsuc}
use adserver.Common.Word.{add64-pos, mul64-pos, quot64-pos, rem64-pos, IsInt64}
use adserver.Types.Bid.{
  Bid, validate_with, missing_field, lacks_field, has_long_field, field_too_long, bad_price,
  has_bad_price, bad_window, has_bad_window, bad_priority, has_bad_priority, has_bad_pacing,
  bad_pacing,
}
use adserver.Auction.{effective_price}

expand_product : (n q r p : ℕ) → n ≡ 10000 * q + r → n * p ≡ 10000 * (q * p) + r * p
expand_product n q r p h = rw h (omega arith)

-- Splitting the price at 10000 loses nothing: the two parts add up to the rounded product.
split_product : (n p : ℕ) → n / 10000 * p + n % 10000 * p / 10000 ≡ n * p / 10000
split_product n p = omega (arith, expand_product n (n / 10000) (n % 10000) p (omega arith))

part_bounds :
    (n p : ℕ) → p ≤ 10000 → (n / 10000 * p ≤ n) × (n % 10000 * p < 2 ^ 63) × (n * p / 10000 ≤ n)
part_bounds n p h = (
  omega (arith, mul-le-mul_left (n / 10000) h),
  omega (arith, mul-le-mul_left (n % 10000) h),
  omega (arith, mul-le-mul_left n h),
)

-- On a positive price and a pacing within 10000 basis points the result is the product divided
-- by 10000, rounded down, although every step is 64-bit arithmetic.
pub effective_price_lem :
    (b : Bid) (n p : ℕ)
    → b.price_micros ≡ pos n
    → n < 2 ^ 63
    → b.pacing_bps ≡ pos p
    → p ≤ 10000
    → effective_price b ≡ pos (n * p / 10000)
unfolding effective_price
effective_price_lem b n p e h f k =
    let b = part_bounds n p k in
    rw
      (
        e,
        f,
        quot64-pos n 10000 h,
        rem64-pos n 10000 h,
        mul64-pos (n / 10000) p (omega arith),
        mul64-pos (n % 10000) p b.1,
        quot64-pos (n % 10000 * p) 10000 b.1,
        add64-pos (n / 10000 * p) (n % 10000 * p / 10000) (omega (arith, split_product n p)),
      )
      (ap pos (split_product n p))

-- A chain of six tests that ends in no error: the third and the sixth failed.
passed :
    (t1 t2 t3 t4 t5 t6 : Bool)
    → (if t1
        then some missing_field
        else if t2
        then some field_too_long
        else if t3
        then some bad_price
        else if t4
        then some bad_window
        else if t5
        then some bad_priority
        else if t6
        then some bad_pacing
        else none)
      ≡ none
    → (t3 ≡ false) × (t6 ≡ false)
passed false false false false false false h = (refl, refl)
passed true t2 t3 t4 t5 t6 h = ground arith
passed false true t3 t4 t5 t6 h = ground arith
passed false false true t4 t5 t6 h = ground arith
passed false false false true t5 t6 h = ground arith
passed false false false false true t6 h = ground arith
passed false false false false false true h = ground arith

-- What validation says of the price and the pacing.
valid_parts :
    (b : Bid) (require_revision : Bool)
    → validate_with b require_revision ≡ none
    → (pos 1 ≤ℤ b.price_micros)
      × (pos 1 ≤ℤ b.pacing_bps)
      × (b.pacing_bps ≤ℤ pos 10000)
      × (pos 0 ≤ℤ b.floor_micros)
      × (b.floor_micros ≤ℤ b.price_micros)
unfolding validate_with
valid_parts b require_revision h =
    let k =
      passed (lacks_field b require_revision) (has_long_field b require_revision) (has_bad_price b)
        (has_bad_window b) (has_bad_priority b) (has_bad_pacing b) h in
    let price = k.0 in
    let pacing = k.1 in (ground arith, ground arith, ground arith, ground arith, ground arith)

pos_of : (a : ℤ) → pos 1 ≤ℤ a → a ≡ pos (pos_part a)
pos_of (pos n) h = refl
pos_of (negsuc n) h = absurd (omega arith)

-- A bid with an int64 price that passes the validation, with or without a revision, has the
-- effective price of the documented formula, price times pacing divided by 10000 and rounded down,
-- with no overflow on the way; it is not negative and at most the price of the bid.
pub effective_price-of_valid :
    (b : Bid) (require_revision : Bool)
    → IsInt64 b.price_micros
    → validate_with b require_revision ≡ none
    → (effective_price b ≡ pos (pos_part b.price_micros * pos_part b.pacing_bps / 10000))
      × (pos 0 ≤ℤ effective_price b)
      × (effective_price b ≤ℤ b.price_micros)
effective_price-of_valid b require_revision i h =
    let v = valid_parts b require_revision h in
    let n = pos_part b.price_micros in
    let p = pos_part b.pacing_bps in
    let e =
      effective_price_lem b n p (pos_of b.price_micros v.0) (in_range b.price_micros i)
        (pos_of b.pacing_bps v.1) (paced b.pacing_bps v.2) in
    (
      e,
      rw e (omega arith),
      rw e (
          under n p b.price_micros (pos_of b.price_micros v.0)
            (part_bounds n p (paced b.pacing_bps v.2)).2),
    )
  where
    in_range : (a : ℤ) → IsInt64 a → pos_part a < 2 ^ 63
    in_range (pos n) k = omega arith
    in_range (negsuc n) k = omega arith

    paced : (a : ℤ) → a ≤ℤ pos 10000 → pos_part a ≤ 10000
    paced (pos n) k = omega arith
    paced (negsuc n) k = omega arith

    under : (n p : ℕ) (a : ℤ) → a ≡ pos n → n * p / 10000 ≤ n → pos (n * p / 10000) ≤ℤ a
    under n p a e k = rw e (omega arith)
