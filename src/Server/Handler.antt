-- ===== src/Server/Handler.antt =====
-- internal/ads/server.go: `Handler`, the routes of the server, and the replies that its handlers write.
-- A path is its segments, decoded; what net/http and encoding/json make of a request, and what a write
-- to Redis comes to, are arguments.
pub mod Guard
use adserver.Server.Page.{metrics_endpoint}
use adserver.Store.Client.{StoreError}
use adserver.Types.Bid.{Bid, AuctionRequest}
use adserver.Common.Text.{bytes, Str, str_eq, is_empty}
use adserver.Common.{
  true, false, some, none, [], ◌∷◌, ◌&&◌, ◌||◌, if◌then◌else◌, Bool, ℕ, Option, List, not,
}
use adserver.Server.{
  bad_request, panicked, answers, AuctionReply, Readings, AuctionResponse, Body, Server, auction,
}
use adserver.Server.Bids.{
  unauthorized, invalid_bid, stale_bid, registry_unavailable, revision_required, deleted, updated,
  not_deleted, MutationReply, Links, upsert_bid, delete_bid_request, ready,
}

pub data Route : Type 0 where
  to_auction to_health to_ready to_metrics : Route
  to_upsert to_delete : Str → Route

-- A GET pattern also matches HEAD.
abbrev is_get : Str → Bool
is_get method = str_eq method (bytes "GET") || str_eq method (bytes "HEAD")

unfoldable pub root_route : Str → Option Route
root_route name =
    if str_eq name (bytes "healthz")
    then some to_health
    else if str_eq name (bytes "readyz")
    then some to_ready
    else if str_eq name (bytes "metrics")
    then some to_metrics
    else none

unfoldable pub bid_route : Str → Str → Option Route
bid_route method id =
    if str_eq method (bytes "PUT")
    then some (to_upsert id)
    else if str_eq method (bytes "DELETE")
    then some (to_delete id)
    else none

-- The patterns of the mux; `{id}` matches one segment that is not empty.
unfoldable pub route_of : Str → List Str → Option Route
unfolding root_route bid_route
route_of method [] = none
route_of method (name ∷ []) = if is_get method then root_route name else none
route_of method (version ∷ (name ∷ [])) =
    if str_eq method (bytes "POST") && str_eq version (bytes "v1") && str_eq name (bytes "auction")
    then some to_auction
    else none
route_of method (version ∷ (name ∷ (id ∷ []))) =
    if str_eq version (bytes "v1") && str_eq name (bytes "bids") && not (is_empty id)
    then bid_route method id
    else none
route_of method (version ∷ (name ∷ (id ∷ (more ∷ rest)))) = none

pub record HttpRequest : Type 0 where
  pub method : Str
  pub path : List Str
  pub authorization : Str
  pub request_id : Str
  pub placement_id : Str
  pub revision : Str
  pub auction_body : Body AuctionRequest
  pub bid_body : Body Bid

-- What a reply carries: a JSON object of one text, an auction's response, a bid, the text of an error of
-- the registry's client, the page of the counters, or nothing.
pub data Value : Type 0 where
  error_text status_text page : Str → Value
  response_value : AuctionResponse → Value
  bid_value : Bid → Value
  store_error : StoreError → Value
  no_value : Value

-- A reply, with whether it has the header `X-Content-Type-Options: nosniff`.
pub record HttpReply : Type 0 where
  pub status : ℕ
  pub is_json : Bool
  pub is_nosniff : Bool
  pub value : Value

unfoldable pub write_json : ℕ → Value → HttpReply
write_json status value = record {
  status = status;
  is_json = true;
  is_nosniff = false;
  value = value;
}

-- `none` where the handler panics, which closes the connection.
unfoldable pub auction_http : AuctionReply → Option HttpReply
unfolding write_json
auction_http bad_request = some (write_json 400 (error_text (bytes "invalid auction request")))
auction_http panicked = none
auction_http (answers r) = some (write_json 200 (response_value r))

unfoldable pub mutation_http : MutationReply → HttpReply
unfolding write_json
mutation_http unauthorized = write_json 401 (error_text (bytes "unauthorized"))
mutation_http invalid_bid = write_json 400 (error_text (bytes "invalid bid or bid id"))
mutation_http stale_bid = write_json 409 (error_text (bytes "stale bid revision"))
mutation_http registry_unavailable = write_json 503 (error_text (bytes "bid registry unavailable"))
mutation_http revision_required =
    write_json 400 (error_text (bytes "revision query parameter is required"))
mutation_http deleted = record {
  status = 204;
  is_json = false;
  is_nosniff = false;
  value = no_value;
}
mutation_http (updated b) = write_json 200 (bid_value b)
mutation_http (not_deleted e) = write_json 400 (store_error e)

unfoldable pub health : HttpReply
unfolding write_json
health = write_json 200 (status_text (bytes "ok"))

unfoldable pub ready_http : Bool → HttpReply
unfolding write_json
ready_http true = write_json 200 (status_text (bytes "ready"))
ready_http false = write_json 503 (status_text (bytes "redis unavailable"))

unfoldable pub page_http : Str → HttpReply
page_http text = record { status = 200; is_json = false; is_nosniff = false; value = page text }

-- The mux's own reply to what no pattern matches, with its status.
unfoldable pub unrouted : ℕ → HttpReply
unrouted status = record { status = status; is_json = false; is_nosniff = false; value = no_value }

-- What a request meets outside the server: the clock, the links to Redis, whether a `Ping` succeeds, and
-- the status that the mux gives to what it does not route.
pub record Surroundings : Type 0 where
  pub readings : Readings
  pub links : Links
  pub pinged : Bool
  pub unrouted_status : ℕ

-- `securityHeaders` sets its header before the mux runs.
unfoldable pub security_headers : Server × Option HttpReply → Server × Option HttpReply
security_headers (s, none) = (s, none)
security_headers (s, some r) = (s, some (record r { is_nosniff = true }))

module _ (marshal : Bid → Option Str) where
  unfoldable pub serve_route :
      Server → Surroundings → HttpRequest → Route → Server × Option HttpReply
  unfolding auction_http mutation_http health ready_http page_http
  serve_route s x q to_auction =
      let (s', reply) = auction s x.readings q.request_id q.auction_body in (s', auction_http reply)
  serve_route s x q (to_upsert id) =
      let (s', reply) = upsert_bid marshal s x.links q.authorization id q.bid_body in
      (s', some (mutation_http reply))
  serve_route s x q (to_delete id) =
      let (s', reply) = delete_bid_request s x.links q.authorization id q.placement_id q.revision in
      (s', some (mutation_http reply))
  serve_route s x q to_health = (s, some health)
  serve_route s x q to_ready = let (s', ok) = ready s x.pinged in (s', some (ready_http ok))
  serve_route s x q to_metrics = (s, some (page_http (metrics_endpoint s)))

  unfoldable pub serve_mux :
      Server → Surroundings → HttpRequest → Option Route → Server × Option HttpReply
  unfolding serve_route unrouted
  serve_mux s x q none = (s, some (unrouted x.unrouted_status))
  serve_mux s x q (some r) = serve_route s x q r

  unfoldable pub handle : Server → Surroundings → HttpRequest → Server × Option HttpReply
  unfolding serve_mux security_headers route_of
  handle s x q = security_headers (serve_mux s x q (route_of q.method q.path))
