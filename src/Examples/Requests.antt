-- ===== src/Examples/Requests.antt =====
-- A request that changes a bid without the token, and an answer of a DSP.
use adserver.Server.Handler.{HttpRequest, Surroundings, handle, route_of, error_text}
use adserver.Server.Handler.Guard.{Guarded, IsMarked, handle-Guarded}
use adserver.Server.Bids.{upsert_bid}
use adserver.Server.Setup.{set_bidder_engine, new_server}
use adserver.Dynamic.HttpBidder.{
  HttpBidderAdapter, Decoded, DspPost, Response, responded, fetch_bids, no_response,
}
use adserver.Dynamic.HttpBidder.Accepts.{Accepted, fetch_bids-Accepted}
use adserver.Dynamic.Sanitize.{DspRequest}
use adserver.Examples.Servers.{with_engine, readings, links, asks, sends}
use adserver.Examples.Clients.{encode}
use adserver.Examples.{dear}
use adserver.Common.Int.{pos}
use adserver.Common.Text.{Str, bytes, str_eq, is_empty}
use adserver.Common.{refl, true, false, some, none, inl, [], ◌∷◌, ◌≡◌, ◌↔◌, if◌then◌else◌, Option}

abbrev surroundings : Surroundings
surroundings = record { readings = readings; links = links; pinged = true; unrouted_status = 404 }

abbrev put_dear : HttpRequest
put_dear = record {
  method = bytes "PUT";
  path = bytes "v1" ∷ bytes "bids" ∷ bytes "b" ∷ [];
  authorization = bytes "Bearer guess";
  request_id = [];
  placement_id = [];
  revision = [];
  auction_body = asks;
  bid_body = sends;
}

handle-Guarded_example :
    Guarded with_engine
      (bytes "Bearer guess")
      (route_of put_dear.method put_dear.path)
      (handle encode with_engine surroundings put_dear)
    × IsMarked (handle encode with_engine surroundings put_dear).1
handle-Guarded_example = handle-Guarded encode with_engine surroundings put_dear

-- It is refused.
put_dear-refused :
    (handle encode with_engine surroundings put_dear).1
    ≡ some (record {
      status = 401;
      is_json = true;
      is_nosniff = true;
      value = error_text (bytes "unauthorized");
    })
unfolding handle str_eq is_empty upsert_bid set_bidder_engine new_server
put_dear-refused = refl

abbrev adapter : HttpBidderAdapter
adapter = record { bidder_id = bytes "x"; endpoint = bytes "https://x.example"; authorization = [] }

-- A DSP that answers the endpoint's posts with one bid.
abbrev answer : DspPost → Response
answer p =
    if str_eq p.url (bytes "https://x.example")
    then responded (pos 200) (record { content = bytes "[b]"; is_broken = false })
    else no_response

abbrev decode_bids : Str → Decoded
decode_bids s =
    if str_eq s (bytes "[b]")
    then record { bids = some (dear ∷ []); at_end = true }
    else record { bids = none; at_end = false }

abbrev marshal : DspRequest → Option Str
marshal r = some r.placement_id

abbrev dsp_request : DspRequest
dsp_request = record {
  placement_id = bytes "top";
  country = bytes "DE";
  device = bytes "mobile";
  floor_micros = pos 100000;
}

fetch_bids-Accepted_example :
    (fetch_bids marshal decode_bids answer adapter dsp_request ≡ inl (dear ∷ []))
    ↔ Accepted marshal decode_bids answer adapter dsp_request (dear ∷ [])
fetch_bids-Accepted_example =
    fetch_bids-Accepted marshal decode_bids answer adapter dsp_request (dear ∷ [])

-- It returns the bid.
fetch_bids-dear : fetch_bids marshal decode_bids answer adapter dsp_request ≡ inl (dear ∷ [])
unfolding fetch_bids str_eq
fetch_bids-dear = refl
