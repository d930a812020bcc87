-- ===== src/Types/Bid.antt =====
-- internal/ads/types.go: the bid, its validation and its normalisation, and the auction request.
-- An int64 or int field is the integer that it stands for, a uint64 a number, a string its bytes.
use adserver.Common.{
  ℕ, ◌-◌, ◌^◌, Bool, true, false, not, ◌&&◌, ◌||◌, List, Option, none, some, if◌then◌else◌, ltb,
  ◌==◌, length, ◌≡◌, arith,
}
use adserver.Common.Int.{ℤ, pos, ltb_ℤ, leb_ℤ, eqb_ℤ}
use adserver.Common.Text.{Str, is_empty, has_byte}

pub record Bid : Type 0 where
  pub id : Str
  pub revision : ℕ
  pub placement_id : Str
  pub campaign_id : Str
  pub creative_id : Str
  pub markup : Str
  pub click_url : Str
  pub price_micros : ℤ
  pub floor_micros : ℤ
  pub deal_id : Str
  pub priority : ℤ
  pub pacing_bps : ℤ
  pub countries : List Str
  pub devices : List Str
  pub active_from_unix : ℤ
  pub active_to_unix : ℤ

-- The errors of `validate`, one for each message.
pub data BidError : Type 0 where
  missing_field field_too_long bad_price bad_window bad_priority bad_pacing : BidError

-- The conditions of the six tests of `validate`, in their order.
abbrev pub lacks_field : Bid → Bool → Bool
lacks_field b require_revision =
    is_empty b.id
    || (require_revision && b.revision == 0)
    || is_empty b.placement_id
    || is_empty b.campaign_id
    || is_empty b.creative_id

-- `strings.ContainsAny(s, "{}")`.
abbrev pub has_brace : Str → Bool
has_brace s = has_byte b'{' s || has_byte b'}' s

abbrev pub has_long_field : Bid → Bool → Bool
has_long_field b require_revision =
    (require_revision && ltb (2 ^ 63 - 1) b.revision)
    || ltb 128 (length b.id)
    || ltb 128 (length b.placement_id)
    || has_brace b.placement_id
    || ltb 65536 (length b.markup)
    || ltb 4096 (length b.click_url)
    || ltb 128 (length b.deal_id)

abbrev pub has_bad_price : Bid → Bool
has_bad_price b =
    leb_ℤ b.price_micros (pos 0)
    || ltb_ℤ b.floor_micros (pos 0)
    || ltb_ℤ b.price_micros b.floor_micros

abbrev pub has_bad_window : Bid → Bool
has_bad_window b = not (eqb_ℤ b.active_to_unix (pos 0)) && ltb_ℤ b.active_to_unix b.active_from_unix

abbrev pub has_bad_priority : Bid → Bool
has_bad_priority b =
    ltb_ℤ b.priority (pos 0)
    || ltb_ℤ (pos 1000) b.priority
    || (ltb_ℤ (pos 0) b.priority && is_empty b.deal_id)

abbrev pub has_bad_pacing : Bid → Bool
has_bad_pacing b = ltb_ℤ b.pacing_bps (pos 1) || ltb_ℤ (pos 10000) b.pacing_bps

-- `validate`: `none` is the nil error.
unfoldable pub validate_with : Bid → Bool → Option BidError
validate_with b require_revision =
    if lacks_field b require_revision
    then some missing_field
    else if has_long_field b require_revision
    then some field_too_long
    else if has_bad_price b
    then some bad_price
    else if has_bad_window b
    then some bad_window
    else if has_bad_priority b
    then some bad_priority
    else if has_bad_pacing b
    then some bad_pacing
    else none

unfoldable pub validate : Bid → Option BidError
validate b = validate_with b true

unfoldable pub validate_dynamic : Bid → Option BidError
validate_dynamic b = validate_with b false

unfoldable pub normalize : Bid → Bid
normalize b = if eqb_ℤ b.pacing_bps (pos 0) then record b { pacing_bps = pos 10000 } else b

pub normalize-placement : (b : Bid) → (normalize b).placement_id ≡ b.placement_id
unfolding normalize
normalize-placement b = ground arith

pub normalize-id : (b : Bid) → (normalize b).id ≡ b.id
unfolding normalize
normalize-id b = ground arith

pub normalize_twice : (b : Bid) → normalize (normalize b) ≡ normalize b
unfolding normalize
normalize_twice b = ground arith

pub record AuctionRequest : Type 0 where
  pub placement_id : Str
  pub user_id : Str
  pub country : Str
  pub device : Str
  pub floor_micros : ℤ

-- `Validate` of a request: is there no error?
unfoldable pub is_valid_request : AuctionRequest → Bool
is_valid_request r = not (
    is_empty r.placement_id
    || ltb 128 (length r.placement_id)
    || ltb 256 (length r.user_id)
    || ltb 16 (length r.country)
    || ltb 64 (length r.device)
    || ltb_ℤ r.floor_micros (pos 0))
