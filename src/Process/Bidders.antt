-- ===== src/Process/Bidders.antt =====
-- cmd/adserver/main.go: the server behind the block of the bidder engine.
use adserver.Dynamic.Engine.Start.{new_bidder_engine-IsValid, Started}
use adserver.Server.Setup.{set_bidder_engine}
use adserver.Dynamic.HttpBidder.{Uri}
use adserver.Server.{Server}
use adserver.Process.{engine_server, with_bidders, with_engine, StartError}
use adserver.Dynamic.Engine.{new_bidder_engine, BidderEngine, BidderRuntime, engine_of, add_bidders}
use adserver.Dynamic.Settings.{
  BidderEngineConfig, BidderConfig, EngineError, fill_engine, validate_engine,
}
use adserver.Config.{Config, DspBidderEndpoint}
use adserver.Dynamic.Engine
use adserver.Common.Text.{Str}
use adserver.Common.{
  refl, true, inl, inr, some, none, [], ◌∷◌, ◌≡◌, ◌∙◌, List, Option, ◌⊎◌, Option-cases,
}

-- The engine of an error-free constructor has the filled settings.
abbrev IsFilled : BidderEngineConfig → BidderEngine ⊎ EngineError → Type 0
IsFilled c (inl e) = e.config ≡ fill_engine c
IsFilled c (inr x) = Unit

new_bidder_engine-IsFilled :
    (c : BidderEngineConfig) (cs : List BidderConfig) → IsFilled c (new_bidder_engine true c cs)
unfolding new_bidder_engine
new_bidder_engine-IsFilled c cs = elim (Option-cases (validate_engine (fill_engine c))) [
  | inr (x, h) ↦ rw h tt
  | inl h ↦ rw h (filled_by (add_bidders [] cs))
]
  where
    filled_by :
        (x : List (Str × BidderRuntime) ⊎ EngineError)
        → IsFilled c
            (elim x [ inr e ↦ inr e | inl bidders ↦ inl (engine_of (fill_engine c) bidders) ])
    filled_by (inl m) = refl
    filled_by (inr e) = tt

-- The server's engine is one that its constructor made of the configuration's settings, unchanged; there
-- is none exactly where the configuration has no endpoint.
abbrev pub HasEngine : Config → List DspBidderEndpoint → Option BidderEngine → Type 0
HasEngine c [] o = o ≡ none
HasEngine c (x ∷ xs) none = ⊥
HasEngine c (x ∷ xs) (some e) = Engine.Runs.IsValid e × (e.config ≡ c.bidder_engine_config)

-- A server that the endpoints changed in its engine only.
abbrev pub Bidding : Config → Server → List DspBidderEndpoint → Server ⊎ StartError → Type 0
Bidding c s es (inl s') =
    (record s { bidder_engine = s'.bidder_engine } ≡ s') × HasEngine c es s'.bidder_engine
Bidding c s es (inr e) = Unit

engine_server-Bidding :
    (c : Config) (s : Server) (e : DspBidderEndpoint) (es : List DspBidderEndpoint)
    → (x : BidderEngine ⊎ EngineError) → Started x
    → IsFilled c.bidder_engine_config x
    → fill_engine c.bidder_engine_config ≡ c.bidder_engine_config
    → Bidding c s (e ∷ es) (engine_server s x)
unfolding engine_server set_bidder_engine
engine_server-Bidding c s e es (inl n) v f q = (refl, (v, f ∙ q))
engine_server-Bidding c s e es (inr x) v f q = tt

with_engine-Bidding :
    (c : Config) (s : Server) (e : DspBidderEndpoint) (es : List DspBidderEndpoint)
    → (o : Option (List BidderConfig)) → fill_engine c.bidder_engine_config ≡ c.bidder_engine_config
    → Bidding c s (e ∷ es) (with_engine c s o)
unfolding with_engine
with_engine-Bidding c s e es none q = tt
with_engine-Bidding c s e es (some cs) q =
    engine_server-Bidding c s e es _ (new_bidder_engine-IsValid true c.bidder_engine_config cs)
      (new_bidder_engine-IsFilled c.bidder_engine_config cs) q

pub with_bidders-Bidding :
    (parse_request_uri : Str → Option Uri) (c : Config) (s : Server) (es : List DspBidderEndpoint)
    → s.bidder_engine ≡ none
    → fill_engine c.bidder_engine_config ≡ c.bidder_engine_config
    → Bidding c s es (with_bidders parse_request_uri c s es)
unfolding with_bidders
with_bidders-Bidding parse_request_uri c s [] h q = (refl, h)
with_bidders-Bidding parse_request_uri c s (e ∷ es) h q = with_engine-Bidding c s e es _ q
