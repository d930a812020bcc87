-- ===== src/Auction/Clearing.antt =====
-- `clearingPrice`: it stays between the floor and the winner's price, and in a second-price auction
-- it is the runner-up price plus the increment within those bounds, also where the 64-bit sum
-- overflows.
use adserver.Common.Text.{str_eq}
use adserver.Types.Bid.{Bid}
use adserver.Types.Policy.{AuctionPolicy, first_price}
use adserver.Auction.{clearing_price}
use adserver.Common.Word.{add64, to_int64}
use Prim.Native.Nat.{min, max}
use adserver.Common.{◌≡◌, ℕ, ◌<◌, arith, ◌^◌, false, ◌≤◌, ◌+◌, ◌⊎◌, true}
use adserver.Common.Int.{ℤ, ◌+ℤ◌, max_ℤ, ◌≤ℤ◌, pos, ltb_ℤ}

-- Where the winner's price is at least the floor, the larger of the request's and the bid's, the
-- clearing price is at least that floor and at most the winner's price, under either pricing model
-- and for every runner-up price and increment.
pub clearing_price_bounds :
    (policy : AuctionPolicy) (w : Bid) (price runner_up request_floor : ℤ)
    → max_ℤ request_floor w.floor_micros ≤ℤ price
    → (max_ℤ request_floor w.floor_micros ≤ℤ clearing_price policy w price runner_up request_floor)
      × (clearing_price policy w price runner_up request_floor ≤ℤ price)
unfolding clearing_price
clearing_price_bounds policy w price runner_up request_floor h = ground arith

-- The sum of two int64 numbers that are not negative: exact, or negative after the overflow.
add64_cases :
    (a b : ℕ)
    → a < 2 ^ 63
    → b < 2 ^ 63
    → (add64 (pos a) (pos b) ≡ pos (a + b)) × (a + b < 2 ^ 63)
      ⊎ (ltb_ℤ (add64 (pos a) (pos b)) (pos 0) ≡ true) × (2 ^ 63 ≤ a + b)
unfolding add64 to_int64 ◌+ℤ◌
add64_cases a b h k = ground arith

-- Under a policy that is not first price, with a positive runner-up price of at most the winner's
-- int64 price and a non-negative int64 increment and floor, the clearing price is the runner-up
-- price and the increment, at most the winner's price and at least the floor, also where their sum
-- overflows.
pub clearing_price-second :
    (policy : AuctionPolicy) (w : Bid) (p r i f : ℕ)
    → str_eq policy.pricing_model first_price ≡ false
    → policy.second_price_increment_micros ≡ pos i
    → i < 2 ^ 63
    → p < 2 ^ 63
    → 0 < r
    → r ≤ p
    → (request_floor : ℤ) → max_ℤ request_floor w.floor_micros ≡ pos f
    → clearing_price policy w (pos p) (pos r) request_floor ≡ pos (max f (min p (r + i)))
unfolding clearing_price
clearing_price-second policy w p r i f m e hi hp hr h request_floor g =
    ground (arith, add64_cases r i)

-- Without a rival a second-price auction clears at the floor.
pub clearing_price-no_rival :
    (policy : AuctionPolicy) (w : Bid) (price request_floor : ℤ)
    → str_eq policy.pricing_model first_price ≡ false
    → clearing_price policy w price (pos 0) request_floor ≡ max_ℤ request_floor w.floor_micros
unfolding clearing_price
clearing_price-no_rival policy w price request_floor m = ground arith
