-- ===== src/Server/Handler/Guard.antt =====
-- internal/ads/server.go: what a request may change.
use mathlib.Core.Path.{subst}
use adserver.Server.Bids.{authorized, ready, upsert_bid, delete_bid_request}
use adserver.Types.Bid.{AuctionRequest, is_valid_request, Bid}
use adserver.Common.Text.{Str, bytes}
use adserver.Server.{
  Server, recorded, auction, auction_valid, refuse, record_decision, Readings, Body, decode_json,
}
use adserver.Common.{
  refl, true, false, inl, inr, some, none, ◌≡◌, Option, Option-cases, Bool-cases, ◌⊎◌, Bool, sym,
}
use adserver.Server.Handler.{
  to_auction, to_upsert, to_delete, to_health, to_ready, to_metrics, Route, HttpReply, error_text,
  Surroundings, HttpRequest, handle, serve_mux, security_headers, route_of, serve_route,
  mutation_http,
}
use adserver.DecisionLog.{panics, returns, Recorded}

-- The registry, the token and the policy are as before.
abbrev pub SameSettings : Server → Server → Type 0
SameSettings s s' =
    (s'.registry ≡ s.registry) × (s'.admin_token ≡ s.admin_token) × (s'.policy ≡ s.policy)

-- A route that changes bids.
abbrev pub Mutates : Option Route → Type 0
Mutates none = ⊥
Mutates (some to_auction) = ⊥
Mutates (some to_health) = ⊥
Mutates (some to_ready) = ⊥
Mutates (some to_metrics) = ⊥
Mutates (some (to_upsert id)) = Unit
Mutates (some (to_delete id)) = Unit

recorded-SameSettings : (s : Server) (r : Recorded) → SameSettings s (recorded s r).0
unfolding recorded
recorded-SameSettings s panics = (refl, refl, refl)
recorded-SameSettings s (returns logger true) = (refl, refl, refl)
recorded-SameSettings s (returns logger false) = (refl, refl, refl)

auction_valid-SameSettings :
    (s : Server) (t : Readings) (header : Str) (request : AuctionRequest)
    → SameSettings s (auction_valid s t header request).0
unfolding auction_valid record_decision
auction_valid-SameSettings s t header request = recorded-SameSettings _ _

auction-SameSettings :
    (s : Server) (t : Readings) (header : Str) (body : Body AuctionRequest)
    → SameSettings s (auction s t header body).0
unfolding auction refuse
auction-SameSettings s t header body = elim (Option-cases (decode_json body)) [
  | inl e ↦ rw (auction, e) (refl, refl, refl)
  | inr (request, e) ↦ elim (Bool-cases (is_valid_request request)) [
    | inl v ↦ rw (auction, e, v) (auction_valid-SameSettings s t header request)
    | inr v ↦ rw (auction, e, v) (refl, refl, refl)
  ]
]

-- Whatever is written is marked against sniffing.
abbrev pub IsMarked : Option HttpReply → Type 0
IsMarked none = Unit
IsMarked (some reply) = reply.is_nosniff ≡ true

abbrev refusal : HttpReply
refusal = record {
  status = 401;
  is_json = true;
  is_nosniff = true;
  value = error_text (bytes "unauthorized");
}

abbrev pub Guarded : Server → Str → Option Route → Server × Option HttpReply → Type 0
Guarded s header r (s', reply) =
    ((authorized s header ≡ true) × Mutates r)
    ⊎ ((authorized s header ≡ false) × Mutates r × (s' ≡ s) × (reply ≡ some refusal))
    ⊎ (¬ Mutates r × SameSettings s s')

module _ (marshal : Bid → Option Str) (s : Server) (x : Surroundings) (q : HttpRequest) where
  ready-SameSettings : (pinged : Bool) → SameSettings s (ready s pinged).0
  unfolding ready
  ready-SameSettings pinged = (refl, refl, refl)

  upsert_bid-Guarded :
      (id : Str)
      → Guarded s q.authorization
          (some (to_upsert id))
          (security_headers (serve_route marshal s x q (to_upsert id)))
  unfolding security_headers serve_route upsert_bid mutation_http
  upsert_bid-Guarded id = elim (Bool-cases (authorized s q.authorization)) [
    | inl t ↦ inl (t, tt)
    | inr t ↦ inr (inl (t, tt, rw t refl, rw t refl))
  ]

  delete_bid-Guarded :
      (id : Str)
      → Guarded s q.authorization
          (some (to_delete id))
          (security_headers (serve_route marshal s x q (to_delete id)))
  unfolding security_headers serve_route delete_bid_request mutation_http
  delete_bid-Guarded id = elim (Bool-cases (authorized s q.authorization)) [
    | inl t ↦ inl (t, tt)
    | inr t ↦ inr (inl (t, tt, rw t refl, rw t refl))
  ]

  security_headers-0 : (out : Server × Option HttpReply) → (security_headers out).0 ≡ out.0
  unfolding security_headers
  security_headers-0 (s', none) = refl
  security_headers-0 (s', some r) = refl

  serve_mux-Guarded :
      (r : Option Route)
      → Guarded s q.authorization r (security_headers (serve_mux marshal s x q r))
  unfolding serve_mux serve_route security_headers
  serve_mux-Guarded none = inr (inr ((λ m. m), (refl, refl, refl)))
  serve_mux-Guarded (some to_auction) = inr (
      inr (
        (λ m. m),
        subst (SameSettings s) (sym (security_headers-0 (serve_route marshal s x q to_auction)))
            (auction-SameSettings s x.readings q.request_id q.auction_body),
      ))
  serve_mux-Guarded (some (to_upsert id)) = upsert_bid-Guarded id
  serve_mux-Guarded (some (to_delete id)) = delete_bid-Guarded id
  serve_mux-Guarded (some to_health) = inr (inr ((λ m. m), (refl, refl, refl)))
  serve_mux-Guarded (some to_ready) = inr (inr ((λ m. m), ready-SameSettings x.pinged))
  serve_mux-Guarded (some to_metrics) = inr (inr ((λ m. m), (refl, refl, refl)))

  security_headers-IsMarked : (out : Server × Option HttpReply) → IsMarked (security_headers out).1
  unfolding security_headers
  security_headers-IsMarked (s', none) = tt
  security_headers-IsMarked (s', some r) = refl

  -- Any request does one of three things. It is authorized and routed to a change of a bid; or it is
  -- routed there and not authorized, and then the server stays as it is and replies 401; or it is routed
  -- elsewhere or nowhere, and then the registry, the token and the policy stay. Whatever is replied has
  -- the header against sniffing.
  pub handle-Guarded :
      Guarded s q.authorization (route_of q.method q.path) (handle marshal s x q)
      × IsMarked (handle marshal s x q).1
  unfolding handle
  handle-Guarded = (
    serve_mux-Guarded (route_of q.method q.path),
    security_headers-IsMarked (serve_mux marshal s x q (route_of q.method q.path)),
  )
