-- ===== src/Types/Policy.antt =====
-- internal/ads/types.go: pricing models and the auction policy. The pricing model of the source is
-- a string type, so a policy can hold any text.
use adserver.Common.{Bool, false, not, ◌&&◌, if◌then◌else◌}
use adserver.Common.Int.{ℤ, pos, ltb_ℤ}
use adserver.Common.Text.{Str, bytes, str_eq}

abbrev pub first_price : Str
first_price = bytes "first_price"

abbrev pub second_price : Str
second_price = bytes "second_price"

pub record AuctionPolicy : Type 0 where
  pub pricing_model : Str
  pub second_price_increment_micros : ℤ

abbrev pub default_auction_policy : AuctionPolicy
default_auction_policy = record {
  pricing_model = first_price;
  second_price_increment_micros = pos 1;
}

-- `Validate` of a policy: is there no error?
unfoldable pub is_valid_policy : AuctionPolicy → Bool
is_valid_policy p =
    if not (str_eq p.pricing_model first_price) && not (str_eq p.pricing_model second_price)
    then false
    else not (ltb_ℤ p.second_price_increment_micros (pos 0))
