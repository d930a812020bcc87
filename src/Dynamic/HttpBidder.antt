-- ===== src/Dynamic/HttpBidder.antt =====
-- internal/ads/http_bidder.go: a DSP behind an HTTP endpoint. What net/url, net/http and encoding/json
-- make of texts, and what the DSP answers, are arguments.
pub mod Accepts
use adserver.Types.Bid.{Bid}
use adserver.Common.Text.{Str, bytes, is_empty, str_eq}
use adserver.Dynamic.Sanitize.{DspRequest}
use adserver.Common.Int.{ℤ, ltb_ℤ, pos, leb_ℤ}
use adserver.Common.{
  false, inl, inr, some, none, zero, suc, [], ◌∷◌, ◌+◌, ◌&&◌, ◌||◌, ◌⊎◌, if◌then◌else◌, List,
  Option, Bool, ℕ, leb, not, length, ltb,
}
use adserver.Dynamic.Engine.{fetched, deadline_exceeded, failed, Outcome}

pub record HttpBidderAdapter : Type 0 where
  pub bidder_id : Str
  pub endpoint : Str
  pub authorization : Str

-- What `ParseRequestURI` returns without an error.
pub record Uri : Type 0 where
  pub scheme : Str
  pub host : Str

unfoldable pub is_http_uri : Option Uri → Bool
is_http_uri none = false
is_http_uri (some u) = not (
    (not (str_eq u.scheme (bytes "http")) && not (str_eq u.scheme (bytes "https")))
    || is_empty u.host)

-- `none` is the error.
unfoldable pub new_http_bidder_adapter :
    (Str → Option Uri) → Str → Str → Str → Option HttpBidderAdapter
unfolding is_http_uri
new_http_bidder_adapter parse_request_uri id endpoint authorization =
    if is_http_uri (parse_request_uri endpoint)
    then some (record { bidder_id = id; endpoint = endpoint; authorization = authorization })
    else none

-- The POST that is sent; an empty authorization sets no header.
pub record DspPost : Type 0 where
  pub url : Str
  pub content_type : Str
  pub accept : Str
  pub authorization : Option Str
  pub payload : Str

unfoldable pub authorization_header : Str → Option Str
authorization_header a = if is_empty a then none else some a

unfoldable pub post_of : HttpBidderAdapter → Str → DspPost
unfolding authorization_header
post_of a payload = record {
  url = a.endpoint;
  content_type = bytes "application/json";
  accept = bytes "application/json";
  authorization = authorization_header a.authorization;
  payload = payload;
}

-- The body of a response: the bytes that come, behind which a read fails or finds the end.
pub record ResponseBody : Type 0 where
  pub content : Str
  pub is_broken : Bool

-- What `Do` comes to, and `NewRequestWithContext` before it.
pub data Response : Type 0 where
  not_sent no_response : Response
  responded : ℤ → ResponseBody → Response

abbrev pub max_dsp_response_bytes : ℕ
max_dsp_response_bytes = 65536

unfoldable pub take : ℕ → Str → Str
take zero s = []
take (suc n) [] = []
take (suc n) (c ∷ s) = c ∷ take n s

-- `io.ReadAll` of an `io.LimitReader`, which stops at its limit without another read.
unfoldable pub read_limited : ℕ → ResponseBody → Option Str
unfolding take
read_limited limit body =
    if leb limit (length body.content)
    then some (take limit body.content)
    else if body.is_broken
    then none
    else some body.content

-- The errors of `Fetch`.
pub data FetchError : Type 0 where
  unmarshalable unrequested unanswered bad_status unreadable too_large : FetchError
  undecodable trailing_data : FetchError

-- What a decoder that disallows unknown fields makes of a payload: the bids of the first `Decode`, and
-- whether the second one is at the end.
pub record Decoded : Type 0 where
  pub bids : Option (List Bid)
  pub at_end : Bool

unfoldable pub bids_of : Decoded → List Bid ⊎ FetchError
bids_of d = elim d.bids [
  | none ↦ inr undecodable
  | some bids ↦ if d.at_end then inl bids else inr trailing_data
]

unfoldable pub read_response : (Str → Decoded) → Option Str → List Bid ⊎ FetchError
unfolding bids_of
read_response decode none = inr unreadable
read_response decode (some payload) =
    if ltb max_dsp_response_bytes (length payload) then inr too_large else bids_of (decode payload)

unfoldable pub check_response : (Str → Decoded) → Response → List Bid ⊎ FetchError
unfolding read_response read_limited
check_response decode not_sent = inr unrequested
check_response decode no_response = inr unanswered
check_response decode (responded status body) =
    if ltb_ℤ status (pos 200) || leb_ℤ (pos 300) status
    then inr bad_status
    else read_response decode (read_limited (max_dsp_response_bytes + 1) body)

-- `Fetch`, over the JSON encoder and decoder and the HTTP client.
unfoldable pub fetch_bids :
    (DspRequest → Option Str)
    → (Str → Decoded)
    → (DspPost → Response)
    → HttpBidderAdapter
    → DspRequest
    → List Bid ⊎ FetchError
unfolding check_response post_of
fetch_bids marshal decode send a request = elim (marshal request) [
  | none ↦ inr unmarshalable
  | some payload ↦ check_response decode (send (post_of a payload))
]

-- What the engine makes of it, with whether the deadline of the call is exceeded.
unfoldable pub outcome_of : Bool → List Bid ⊎ FetchError → Outcome
outcome_of is_late (inl bids) = fetched bids
outcome_of is_late (inr e) = if is_late then deadline_exceeded else failed
