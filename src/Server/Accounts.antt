-- ===== src/Server/Accounts.antt =====
-- internal/ads/server.go: the counters and the log after any sequence of requests.
use adserver.Server.Balance.{
  IsBalanced, auction-IsBalanced, mutated-IsBalanced, logs-IsBalanced, calm-IsBalanced, written_on,
}
use adserver.Dynamic.Engine.{BidderEngine}
use adserver.Store.Client.{Registry}
use adserver.Cache.{BidCache}
use adserver.Server.Bids.{
  upsert_bid, Links, delete_bid_request, ready, delete_bid_at, upsert_decoded, authorized,
  parse_uint,
}
use adserver.Common.Text.{Str, str_eq}
use adserver.Types.Bid.{Bid, AuctionRequest, normalize, validate}
use adserver.Server.{Readings, Server, auction, Body, refuse, decode_json}
use adserver.Common.{
  [], ◌∷◌, Option, List, Bool, inl, inr, Bool-cases, refl, Option-cases, ◌||◌, not, is_some,
}

-- What happens to a server: its requests, a write of the log's goroutine, and what the other goroutines
-- and servers do to the cache, the registry and the bidder engine.
pub data ServerEvent : Type 0 where
  auctions : Readings → Str → Body AuctionRequest → ServerEvent
  upserts : Links → Str → Str → Body Bid → ServerEvent
  deletes : Links → Str → Str → Str → Str → ServerEvent
  checks : Bool → ServerEvent
  logs : ServerEvent
  others : BidCache → Registry → Option BidderEngine → ServerEvent

module _ (marshal : Bid → Option Str) where
  unfoldable pub serve : Server → ServerEvent → Server
  unfolding auction upsert_bid delete_bid_request ready written_on
  serve s (auctions t header body) = (auction s t header body).0
  serve s (upserts l header id body) = (upsert_bid marshal s l header id body).0
  serve s (deletes l header id placement revision) =
      (delete_bid_request s l header id placement revision).0
  serve s (checks pinged) = (ready s pinged).0
  serve s logs = record s { decision_logger = written_on s.decision_logger }
  serve s (others cache registry engine) = record s {
    cache = cache;
    registry = registry;
    bidder_engine = engine;
  }

  unfoldable pub serve_all : Server → List ServerEvent → Server
  unfolding serve
  serve_all s [] = s
  serve_all s (e ∷ es) = serve_all (serve s e) es

module _ (marshal : Bid → Option Str) where
  upsert_decoded-IsBalanced :
      (s : Server) (l : Links) (id : Str) (bid : Bid)
      → IsBalanced s
      → IsBalanced (upsert_decoded marshal s l id bid).0
  unfolding upsert_decoded refuse
  upsert_decoded-IsBalanced s l id bid v =
      let b = normalize bid in
      elim (Bool-cases (not (str_eq b.id id) || is_some (validate b))) [
        | inl t ↦ rw t (calm-IsBalanced s (refuse s) refl refl refl refl refl v)
        | inr t ↦ rw t (mutated-IsBalanced s b.placement_id _ _ v)
      ]

  upsert_bid-IsBalanced :
      (s : Server) (l : Links) (header id : Str) (body : Body Bid)
      → IsBalanced s
      → IsBalanced (upsert_bid marshal s l header id body).0
  unfolding upsert_bid refuse
  upsert_bid-IsBalanced s l header id body v = elim (Bool-cases (authorized s header)) [
    | inr t ↦ rw t v
    | inl t ↦ elim (Option-cases (decode_json body)) [
      | inl d ↦ rw (t, d, upsert_bid) (calm-IsBalanced s (refuse s) refl refl refl refl refl v)
      | inr (bid, d) ↦ rw (t, d, upsert_bid) (upsert_decoded-IsBalanced s l id bid v)
    ]
  ]

  delete_bid_request-IsBalanced :
      (s : Server) (l : Links) (header id placement revision : Str)
      → IsBalanced s
      → IsBalanced (delete_bid_request s l header id placement revision).0
  unfolding delete_bid_request delete_bid_at
  delete_bid_request-IsBalanced s l header id placement revision v =
      elim (Bool-cases (authorized s header)) [
        | inr t ↦ rw t v
        | inl t ↦ elim (Option-cases (parse_uint revision)) [
          | inl d ↦ rw (t, d, delete_bid_request) v
          | inr (n, d) ↦ rw (t, d, delete_bid_request) (mutated-IsBalanced s placement _ _ v)
        ]
      ]

  step-IsBalanced : (s : Server) (e : ServerEvent) → IsBalanced s → IsBalanced (serve marshal s e)
  unfolding serve ready
  step-IsBalanced s (auctions t header body) v = auction-IsBalanced s t header body v
  step-IsBalanced s (upserts l header id body) v = upsert_bid-IsBalanced s l header id body v
  step-IsBalanced s (deletes l header id placement revision) v =
      delete_bid_request-IsBalanced s l header id placement revision v
  step-IsBalanced s (checks pinged) v = calm-IsBalanced s _ refl refl refl refl refl v
  step-IsBalanced s logs v = logs-IsBalanced s v
  step-IsBalanced s (others cache registry engine) v =
      calm-IsBalanced s _ refl refl refl refl refl v

  -- With decision logging on, and until the log is closed, after any sequence of requests, of writes of
  -- the log and of changes to the cache, the registry and the engine, counters modulo 2^64: every
  -- auction is counted as a fill or as a no-bid, and has one entry in the log, queued or written, or is
  -- counted as dropped by the log and by the metrics alike.
  pub serve_all-IsBalanced :
      (s : Server) (es : List ServerEvent) → IsBalanced s → IsBalanced (serve_all marshal s es)
  unfolding serve_all
  serve_all-IsBalanced s [] v = v
  serve_all-IsBalanced s (e ∷ es) v =
      serve_all-IsBalanced (serve marshal s e) es (step-IsBalanced s e v)
