-- ===== src/Config/Engine.antt =====
-- cmd/adserver/main.go: the bidder engine of a configuration.
use adserver.Common.Assoc.{has_key, store, has_key-store}
use adserver.Dynamic.Engine.{
  add_bidders, BidderRuntime, BidderEngine, add_adapter, new_bidder_engine, add_bidder, engine_of,
  new_runtime,
}
use adserver.Common.Text.{Str, str_eq}
use adserver.Config.{
  Config, DspBidderEndpoint, has_bad_dsp_limits, bad_endpoint_in, engine_error, validate_config,
}
use adserver.Dynamic.Settings.{
  validate_engine, fill_engine, BidderEngineConfig, BidderConfig, EngineError, is_over_limit,
  fill_bidder, valid_bidder_id,
}
use adserver.Common.{
  false, inl, inr, some, none, [], ◌∷◌, ◌≡◌, ◌⊎◌, List, All, map, refl, true, arith, Option,
}

abbrev pub bidder_config_of : Config → DspBidderEndpoint → BidderConfig
bidder_config_of c e = record {
  adapter = some e.id;
  timeout = c.dsp_timeout;
  max_concurrent = c.dsp_max_concurrent;
  failure_threshold = c.dsp_failure_threshold;
  circuit_open_for = c.dsp_circuit_open_for;
}

-- The ids, of which none stands twice.
abbrev pub DistinctIds : List DspBidderEndpoint → Type 0
DistinctIds [] = Unit
DistinctIds (e ∷ es) = All (λ x. str_eq e.id x.id ≡ false) es × DistinctIds es

abbrev IsDone : List (Str × BidderRuntime) ⊎ EngineError → Type 0
IsDone (inl m) = Unit
IsDone (inr e) = ⊥

-- Settings that pass the validation are not changed by the constructor's defaults.
pub fill_engine-valid : (c : BidderEngineConfig) → validate_engine c ≡ none → fill_engine c ≡ c
unfolding validate_engine fill_engine
fill_engine-valid c h = ground arith

-- New ids that the bidders do not have.
abbrev AreNew : List (Str × BidderRuntime) → List DspBidderEndpoint → Type 0
AreNew m es = All (λ e. has_key e.id m ≡ false) es

store-AreNew :
    (id : Str) (b : BidderRuntime) (m : List (Str × BidderRuntime)) (es : List DspBidderEndpoint)
    → All (λ x. str_eq id x.id ≡ false) es
    → AreNew m es
    → AreNew (store id b m) es
store-AreNew id b m [] a n = tt
store-AreNew id b m (e ∷ es) (a, a_rest) (n, n_rest) =
    (rw (has_key-store id e.id b m, a) n, store-AreNew id b m es a_rest n_rest)

module _ (c : Config) (limits : has_bad_dsp_limits c ≡ false) where
  fill_bidder-valid :
      (e : DspBidderEndpoint) → is_over_limit (fill_bidder (bidder_config_of c e)) ≡ false
  unfolding is_over_limit fill_bidder
  fill_bidder-valid e = ground arith

  abbrev runtime_of : DspBidderEndpoint → BidderRuntime
  runtime_of e = new_runtime (fill_bidder (bidder_config_of c e))

  add_adapter_lem :
      (m : List (Str × BidderRuntime)) (e : DspBidderEndpoint)
      → valid_bidder_id e.id ≡ true
      → has_key e.id m ≡ false
      → add_adapter m (bidder_config_of c e) (some e.id) ≡ inl (store e.id (runtime_of e) m)
  unfolding add_adapter add_bidder
  add_adapter_lem m e v k = rw (v, k, fill_bidder-valid e) refl

  IsDone-inl :
      (x : List (Str × BidderRuntime) ⊎ EngineError) (m : List (Str × BidderRuntime))
      → (cs : List BidderConfig) → x ≡ inl m
      → IsDone (add_bidders m cs)
      → IsDone (elim x [ inl m' ↦ add_bidders m' cs | inr e ↦ inr e ])
  IsDone-inl x m cs q d = rw q d

  add_bidders-IsDone :
      (m : List (Str × BidderRuntime)) (es : List DspBidderEndpoint)
      → bad_endpoint_in es ≡ false
      → DistinctIds es
      → AreNew m es
      → IsDone (add_bidders m (map (bidder_config_of c) es))
  unfolding add_bidders bad_endpoint_in
  add_bidders-IsDone m [] g d n = tt
  add_bidders-IsDone m (e ∷ es) g d n =
      let m' : List (Str × BidderRuntime) = store e.id (runtime_of e) m in
      let rest : IsDone (add_bidders m' (map (bidder_config_of c) es)) =
        add_bidders-IsDone m' es (ground arith) d.1
          (store-AreNew e.id (runtime_of e) m es d.0 n.1) in
      IsDone-inl _ m' _ (add_adapter_lem m e (ground arith) n.0) rest

AreNew-empty : (es : List DspBidderEndpoint) → AreNew [] es
unfolding has_key
AreNew-empty [] = tt
AreNew-empty (e ∷ es) = (refl, AreNew-empty es)

-- The engine runs with the settings and the endpoints of a configuration.
abbrev pub Serves : Config → BidderEngine ⊎ EngineError → Type 0
Serves c (inl e) = e.config ≡ c.bidder_engine_config
Serves c (inr x) = ⊥

engine_of-Serves :
    (c : Config) (x : List (Str × BidderRuntime) ⊎ EngineError)
    → IsDone x
    → fill_engine c.bidder_engine_config ≡ c.bidder_engine_config
    → Serves c (elim x [
      | inr e ↦ inr e
      | inl bidders ↦ inl (engine_of (fill_engine c.bidder_engine_config) bidders)
    ])
engine_of-Serves c (inl m) h f = f
engine_of-Serves c (inr e) h f = absurd h

pub engine_error-none : (o : Option EngineError) → engine_error o ≡ none → o ≡ none
unfolding engine_error
engine_error-none none q = refl
engine_error-none (some e) q = absurd (ground arith)

new_bidder_engine_of :
    (c : Config)
    → (fill_engine c.bidder_engine_config ≡ c.bidder_engine_config)
    → (validate_engine (fill_engine c.bidder_engine_config) ≡ none)
    → IsDone (add_bidders [] (map (bidder_config_of c) c.dsp_bidder_endpoints))
    → Serves c (
        new_bidder_engine true c.bidder_engine_config
          (map (bidder_config_of c) c.dsp_bidder_endpoints))
unfolding new_bidder_engine
new_bidder_engine_of c f v d = rw v (engine_of-Serves c _ d f)

-- A configuration that passes the validation, and whose endpoints have different ids, starts an
-- engine: the constructor returns no error, and it keeps the configuration's engine settings, of
-- which no default replaces any.
pub new_bidder_engine-Serves :
    (c : Config)
    → validate_config c ≡ none
    → DistinctIds c.dsp_bidder_endpoints
    → Serves c (
        new_bidder_engine true c.bidder_engine_config
          (map (bidder_config_of c) c.dsp_bidder_endpoints))
unfolding validate_config
new_bidder_engine-Serves c h d =
    let v : validate_engine c.bidder_engine_config ≡ none = engine_error-none _ (ground arith) in
    new_bidder_engine_of c (fill_engine-valid c.bidder_engine_config v)
      (rw (fill_engine-valid c.bidder_engine_config v) v)
      (add_bidders-IsDone c (ground arith) [] c.dsp_bidder_endpoints (ground arith) d
        (AreNew-empty c.dsp_bidder_endpoints))
