-- ===== src/Dynamic/Engine/Start.antt =====
-- internal/ads/dynamic_bidding.go, `BidderEngine`: what the constructor of the engine returns.
use adserver.Common.Int.{ℤ, ltb_ℤ, pos, negsuc}
use adserver.Dynamic.Engine.Tokens.{sem_of}
use adserver.Dynamic.Engine.Keeps.{HasRoom}
use adserver.Common.Assoc.{store, has_key, load, load-store}
use adserver.Common.Text.{Str, str_eq}
use adserver.Dynamic.Settings.{
  validate_engine, EngineError, BidderConfig, BidderEngineConfig, fill_engine, valid_bidder_id,
  is_over_limit, fill_bidder,
}
use adserver.Common.{
  refl, true, false, inl, inr, some, none, zero, suc, [], ◌∷◌, ◌≡◌, ◌⊎◌, Option, List, Bool,
  Option-cases, Bool-cases, arith, not, ℕ,
}
use adserver.Dynamic.Engine.Runs.{IsValid, sum_of}
use adserver.Dynamic.Engine.{
  BidderEngine, add_adapter, add_bidders, new_bidder_engine, BidderRuntime, add_bidder, engine_of,
}

-- No token of the bidder is taken.
abbrev IsIdle : Option BidderRuntime → Type 0
IsIdle none = Unit
IsIdle (some b) = b.sem ≡ 0

abbrev AreIdle : List (Str × BidderRuntime) → Type 0
AreIdle m = (id : Str) → IsIdle (load id m)

abbrev Idle : List (Str × BidderRuntime) ⊎ EngineError → Type 0
Idle (inl m) = AreIdle m
Idle (inr e) = Unit

store-AreIdle :
    (id : Str) (b : BidderRuntime) (m : List (Str × BidderRuntime))
    → b.sem ≡ 0
    → AreIdle m
    → AreIdle (store id b m)
store-AreIdle id b m h f j = elim (Bool-cases (str_eq id j)) [
  | inl t ↦ rw (load-store id j b m, t) h
  | inr t ↦ rw (load-store id j b m, t) (f j)
]

add_adapter-Idle :
    (m : List (Str × BidderRuntime)) (c : BidderConfig) (o : Option Str)
    → AreIdle m
    → Idle (add_adapter m c o)
unfolding add_adapter add_bidder
add_adapter-Idle m c none f = tt
add_adapter-Idle m c (some id) f = elim (Bool-cases (not (valid_bidder_id id))) [
  | inl h ↦ rw h tt
  | inr h ↦ elim (Bool-cases (has_key id m)) [
    | inl k ↦ rw (h, k) tt
    | inr k ↦ elim (Bool-cases (is_over_limit (fill_bidder c))) [
      | inl l ↦ rw (h, k, l) tt
      | inr l ↦ rw (h, k, l) (store-AreIdle id _ m refl f)
    ]
  ]
]

add_bidders-Idle :
    (m : List (Str × BidderRuntime)) (cs : List BidderConfig) → AreIdle m → Idle (add_bidders m cs)
unfolding add_bidders
add_bidders-Idle m [] f = f
add_bidders-Idle m (c ∷ cs) f =
    rest_idle (add_adapter m c c.adapter) (add_adapter-Idle m c c.adapter f)
      (λ m' h. add_bidders-Idle m' cs h)
  where
    rest_idle :
        (x : List (Str × BidderRuntime) ⊎ EngineError)
        → Idle x
        → ((m' : List (Str × BidderRuntime)) → AreIdle m' → Idle (add_bidders m' cs))
        → Idle (elim x [ inl m' ↦ add_bidders m' cs | inr e ↦ inr e ])
    rest_idle (inl m') h f = f m' h
    rest_idle (inr e) h f = tt

-- What the constructor returns with no error.
abbrev pub Started : BidderEngine ⊎ EngineError → Type 0
Started (inl e) = IsValid e
Started (inr e) = Unit

IsIdle-sem : (o : Option BidderRuntime) → IsIdle o → sem_of o ≡ 0
IsIdle-sem none h = refl
IsIdle-sem (some b) h = h

IsIdle-HasRoom : (o : Option BidderRuntime) → IsIdle o → HasRoom o
IsIdle-HasRoom none h = tt
IsIdle-HasRoom (some b) h = omega arith

engine_of-IsValid :
    (c : BidderEngineConfig) (m : List (Str × BidderRuntime))
    → validate_engine c ≡ none
    → AreIdle m
    → IsValid (engine_of c m)
unfolding validate_engine sum_of has_key
engine_of-IsValid c m h f =
    let k : (n : ℕ) × (c.max_fanout ≡ pos (suc n)) = positive c.max_fanout (ground arith) in
    record {
      fanout = k.0;
      fanout_is = k.1;
      slots = refl;
      slot_limit = omega arith;
      tokens = λ id. IsIdle-sem (load id m) (f id);
      token_limit = λ id. IsIdle-HasRoom (load id m) (f id);
      single = λ key. refl;
      distinct = tt;
      fits = tt;
    }
  where
    positive : (z : ℤ) → ltb_ℤ z (pos 1) ≡ false → (n : ℕ) × (z ≡ pos (suc n))
    positive (pos zero) q = absurd (ground arith)
    positive (pos (suc n)) q = (n, refl)
    positive (negsuc n) q = absurd (ground arith)

engine_of-Started :
    (c : BidderEngineConfig) (x : List (Str × BidderRuntime) ⊎ EngineError)
    → validate_engine c ≡ none
    → Idle x
    → Started (elim x [ inr e ↦ inr e | inl bidders ↦ inl (engine_of c bidders) ])
engine_of-Started c (inl m) h f = engine_of-IsValid c m h f
engine_of-Started c (inr e) h f = tt

-- Every engine that the constructor returns satisfies the invariant.
pub new_bidder_engine-IsValid :
    (has_context : Bool) (c : BidderEngineConfig) (cs : List BidderConfig)
    → Started (new_bidder_engine has_context c cs)
unfolding new_bidder_engine load
new_bidder_engine-IsValid false c cs = tt
new_bidder_engine-IsValid true c cs = elim (Option-cases (validate_engine (fill_engine c))) [
  | inr (x, h) ↦ rw h tt
  | inl h ↦
      rw h (
        engine_of-Started (fill_engine c) (add_bidders [] cs) h (add_bidders-Idle [] cs (λ id. tt)))
]
