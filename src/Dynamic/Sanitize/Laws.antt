-- ===== src/Dynamic/Sanitize/Laws.antt =====
-- A DSP's bid enters an auction only for the placement that was asked for, in the open market, under
-- the bidder's name and valid.
use adserver.Common.Int.{pos, eqb_ℤ}
use adserver.Auction.{DynamicBid}
use adserver.Types.Bid.{normalize, Bid, validate_dynamic}
use adserver.Common.Text.{Str, str_eq→eq, str_eq, bytes}
use adserver.Dynamic.Sanitize.{sanitize_dynamic_bids, as_open_bid, DspRequest}
use adserver.Common.{
  none, [], ◌∷◌, ◌≡◌, List, arith, All, refl, inl, inr, ◌&&◌, ◌++◌, if◌then◌else◌, map, Bool-cases,
  not, Option-cases, is_some,
}

abbrev pub IsOpen : Str → DspRequest → DynamicBid → Type 0
IsOpen bidder_id request d =
    (d.bidder_id ≡ bidder_id)
    × (d.bid.placement_id ≡ request.placement_id)
    × (d.bid.priority ≡ pos 0)
    × (d.bid.deal_id ≡ [])
    × (d.bid.revision ≡ 0)
    × (validate_dynamic d.bid ≡ none)

placement_as_open_bid :
    (bidder_id : Str) (b : Bid) → (as_open_bid bidder_id b).placement_id ≡ b.placement_id
unfolding as_open_bid normalize
placement_as_open_bid bidder_id b = ground arith

-- A bid of a DSP in the open market: its own but for the bidder's id and a colon in front of its id, the
-- default of the pacing, and no revision, priority or deal.
abbrev pub opened : Str → Bid → Bid
opened bidder_id b = record {
  id = bidder_id ++ (bytes ":" ++ b.id);
  revision = 0;
  placement_id = b.placement_id;
  campaign_id = b.campaign_id;
  creative_id = b.creative_id;
  markup = b.markup;
  click_url = b.click_url;
  price_micros = b.price_micros;
  floor_micros = b.floor_micros;
  deal_id = [];
  priority = pos 0;
  pacing_bps = if eqb_ℤ b.pacing_bps (pos 0) then pos 10000 else b.pacing_bps;
  countries = b.countries;
  devices = b.devices;
  active_from_unix = b.active_from_unix;
  active_to_unix = b.active_to_unix;
}

as_open_bid_lem : (bidder_id : Str) (b : Bid) → as_open_bid bidder_id b ≡ opened bidder_id b
unfolding as_open_bid normalize
as_open_bid_lem bidder_id b = elim (Bool-cases (eqb_ℤ b.pacing_bps (pos 0))) [
  | inl t ↦ rw t refl
  | inr t ↦ rw t refl
]

-- The bids that a sanitised answer holds, in the order of the answer.
abbrev pub kept : Str → DspRequest → List Bid → List Bid
kept bidder_id request [] = []
kept bidder_id request (b ∷ bs) =
    if str_eq b.placement_id request.placement_id
      && not (is_some (validate_dynamic (opened bidder_id b)))
    then b ∷ kept bidder_id request bs
    else kept bidder_id request bs

-- Every bid that is kept is for the placement of the request, with priority 0, no deal and no revision,
-- under the bidder's name, and passes the validation.
pub sanitize_dynamic_bids-IsOpen :
    (bidder_id : Str) (request : DspRequest) (bids : List Bid)
    → All (IsOpen bidder_id request) (sanitize_dynamic_bids bidder_id request bids)
unfolding sanitize_dynamic_bids as_open_bid
sanitize_dynamic_bids-IsOpen bidder_id request [] = tt
sanitize_dynamic_bids-IsOpen bidder_id request (b ∷ bs) = ground (
  arith,
  sanitize_dynamic_bids-IsOpen bidder_id request bs,
  placement_as_open_bid bidder_id b,
  str_eq→eq b.placement_id request.placement_id,
)

sanitize_dynamic_bids-kept :
    (bidder_id : Str) (request : DspRequest) (bids : List Bid)
    → sanitize_dynamic_bids bidder_id request bids
      ≡ map
          (λ b. record { bid = opened bidder_id b; bidder_id = bidder_id })
          (kept bidder_id request bids)
unfolding sanitize_dynamic_bids
sanitize_dynamic_bids-kept bidder_id request [] = refl
sanitize_dynamic_bids-kept bidder_id request (b ∷ bs) =
    let ih = sanitize_dynamic_bids-kept bidder_id request bs in
    elim (Bool-cases (str_eq b.placement_id request.placement_id)) [
      | inr t ↦ rw (sanitize_dynamic_bids, t) ih
      | inl t ↦ elim (Option-cases (validate_dynamic (opened bidder_id b))) [
        | inl e ↦
            rw
              (
                sanitize_dynamic_bids,
                t,
                as_open_bid_lem bidder_id b,
                e,
                as_open_bid_lem bidder_id b,
                ih,
              )
              refl
        | inr (x, e) ↦ rw (sanitize_dynamic_bids, t, as_open_bid_lem bidder_id b, e) ih
      ]
    ]

-- A sanitised answer is the DSP's bids for the placement of the request that pass the validation in the
-- open market, all of them and in their order, under the bidder's name: each is the DSP's bid with the
-- bidder's id and a colon in front of its id, the default of the pacing filled in, priority 0, no deal and
-- no revision, and unchanged in all else. Every one that is kept passes the validation and is for the
-- placement.
pub sanitize_dynamic_bids-Opened :
    (bidder_id : Str) (request : DspRequest) (bids : List Bid)
    → (sanitize_dynamic_bids bidder_id request bids
        ≡ map
            (λ b. record { bid = opened bidder_id b; bidder_id = bidder_id })
            (kept bidder_id request bids))
      × All (IsOpen bidder_id request) (sanitize_dynamic_bids bidder_id request bids)
sanitize_dynamic_bids-Opened bidder_id request bids = (
  sanitize_dynamic_bids-kept bidder_id request bids,
  sanitize_dynamic_bids-IsOpen bidder_id request bids,
)
