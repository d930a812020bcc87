-- ===== src/Auctioneer/Answered.antt =====
-- internal/ads/auction.go, `run`: what a run answers and does to the cache, field by field.
use adserver.Auction.Offers.{offers, outcome}
use adserver.Auction.{Accumulator, DynamicBid}
use adserver.Common.Assoc.{has_key, has_key-store, load}
use adserver.Common.Int.{ℤ, pos, ◌<ℤ◌, ◌≤ℤ◌, ltb_ℤ}
use adserver.Auction.Winner.{count_candidates, is_candidate, Dominated, outcome-best, NotAheadOf}
use adserver.Types.Policy.{AuctionPolicy}
use adserver.Types.Bid.{AuctionRequest, Bid}
use adserver.Common.Text.{Str, is_empty, bytes, str_eq_refl}
use adserver.Cache.{refresh_async, BidCache, SnapshotState, BidList, sub_time, no_bid_on_stale}
use adserver.Common.{
  refl, true, false, inl, inr, some, none, [], ◌∷◌, ◌≡◌, ◌∙◌, ◌||◌, ◌⊎◌, ℕ, Bool-cases, Bool, List,
  Option, All, ◌≢◌, Option-cases, ap, sym, arith,
}
use mathlib.Core.Path.{subst}
use adserver.Auctioneer.{run, decide, conclude, AuctionDecision}
use adserver.Auctioneer.Runs.{run_cases, served, Rejected, Served}
use adserver.Auctioneer.Decisions.{Fair, decide-Fair}

-- A refresh of the placement is asked for: it starts where the placement has a name and none is in flight,
-- and otherwise nothing changes.
abbrev pub Asked : BidCache → Str → BidCache → Type 0
Asked c p c' =
    (((is_empty p || has_key p c.inflight) ≡ true) × (c' ≡ c))
    ⊎ (((is_empty p || has_key p c.inflight) ≡ false)
        × (has_key p c'.inflight ≡ true)
        × (c'.running ≡ p ∷ c.running)
        × (c'.entries ≡ c.entries)
        × (c'.policy ≡ c.policy)
        × (c'.stats ≡ c.stats))

-- A decision without a bid, with its reason, the number of eligible offers and the snapshot's age.
abbrev pub declined : Str → ℕ → Bool → ℤ → AuctionDecision
declined reason candidates stale age = record {
  bid = none;
  effective_price_micros = pos 0;
  clearing_price_micros = pos 0;
  eligible_candidates = candidates;
  no_bid_reason = reason;
  served_stale = stale;
  snapshot_age = age;
  dynamic_bidder_id = [];
}

-- The decision over a snapshot that is served: it carries the age and the staleness and counts the eligible
-- offers, and is a no-bid where there are none, and the fair fill otherwise.
abbrev pub Decided : AuctionRequest → ℤ → List DynamicBid → Bool → ℤ → AuctionDecision → Type 0
Decided request now all stale age d =
    (d.snapshot_age ≡ age)
    × (d.served_stale ≡ stale)
    × (d.eligible_candidates ≡ count_candidates request now all)
    × (((count_candidates request now all ≡ 0)
          × (d ≡ declined (bytes "no_eligible_bid") 0 stale age))
        ⊎ ((b : Bid) × (o : DynamicBid) × (d.bid ≡ some b)
            × (d.no_bid_reason ≡ [])
            × Fair request now all d b o))

refresh_async-Asked : (c : BidCache) (p : Str) → Asked c p (refresh_async c p)
unfolding refresh_async
refresh_async-Asked c p = elim (Bool-cases (is_empty p)) [
  | inl t ↦ rw (refresh_async, t) (inl (refl, refl))
  | inr t ↦ elim (Bool-cases (has_key p c.inflight)) [
    | inl k ↦ rw (refresh_async, t, k) (inl (refl, refl))
    | inr k ↦
        rw (refresh_async, t, k)
          (inr (
            refl,
            has_key-store p p tt c.inflight ∙ rw (str_eq_refl p) refl,
            refl,
            refl,
            refl,
            refl,
          ))
  ]
]

-- Without an eligible offer there is no winner, and with one there is.
winner-candidates :
    (request : AuctionRequest) (now : ℤ) (a : Accumulator) (xs : List DynamicBid)
    → All (λ o. is_candidate request now o ≡ true → Dominated a o) xs
    → a.winner ≡ none
    → count_candidates request now xs ≡ 0
unfolding count_candidates
winner-candidates request now a [] h e = refl
winner-candidates request now a (o ∷ xs) (h, hs) e =
    elim (Bool-cases (is_candidate request now o)) [
      | inl t ↦ absurd (subst (λ w. NotAheadOf o w a.winner_price) e (h t))
      | inr t ↦ rw t (winner-candidates request now a xs hs e)
    ]

conclude-carries :
    (policy : AuctionPolicy) (request : AuctionRequest) (snapshot : SnapshotState) (a : Accumulator)
    → (w : Option Bid)
    → let d = conclude policy request snapshot a w in
      (d.snapshot_age ≡ snapshot.age)
      × (d.served_stale ≡ snapshot.stale)
      × (d.eligible_candidates ≡ a.candidates)
      × (d.bid ≡ w)
unfolding conclude
conclude-carries policy request snapshot a none = (refl, refl, refl, refl)
conclude-carries policy request snapshot a (some w) = (refl, refl, refl, refl)

conclude-declined :
    (policy : AuctionPolicy) (request : AuctionRequest) (snapshot : SnapshotState) (a : Accumulator)
    → conclude policy request snapshot a none
      ≡ declined (bytes "no_eligible_bid") a.candidates snapshot.stale snapshot.age
unfolding conclude
conclude-declined policy request snapshot a = refl

conclude-reason :
    (policy : AuctionPolicy) (request : AuctionRequest) (snapshot : SnapshotState) (a : Accumulator)
    → (b : Bid) → (conclude policy request snapshot a (some b)).no_bid_reason ≡ []
unfolding conclude
conclude-reason policy request snapshot a b = refl

decide-Decided :
    (policy : AuctionPolicy) (request : AuctionRequest) (snapshot : SnapshotState) (now : ℤ)
    → (bids : List Bid) (dynamic : List DynamicBid)
    → Decided request now
        (offers bids dynamic)
        snapshot.stale
        snapshot.age
        (decide policy request snapshot now bids dynamic)
unfolding decide
decide-Decided policy request snapshot now bids dynamic =
    let a = outcome request now bids dynamic in
    let best = outcome-best request now bids dynamic in
    let carries = conclude-carries policy request snapshot a a.winner in
    (
      carries.0,
      carries.1,
      carries.2 ∙ best.2,
      elim (Option-cases a.winner) [
        | inl e ↦
            let empty = winner-candidates request now a (offers bids dynamic) best.0 e in
            inl (
              empty,
              ap (conclude policy request snapshot a) e
                  ∙ conclude-declined policy request snapshot a
                  ∙ ap (λ n. declined (bytes "no_eligible_bid") n snapshot.stale snapshot.age)
                      (best.2 ∙ empty),
            )
        | inr (b, e) ↦
            let won = carries.3 ∙ e in
            let fair = decide-Fair policy request snapshot now bids dynamic b won in
            inr (
              b,
              fair.0,
              won,
              ap (λ w. (conclude policy request snapshot a w).no_bid_reason) e
                  ∙ conclude-reason policy request snapshot a b,
              fair.1,
            )
      ],
    )

module _ (policy : AuctionPolicy) (cache : BidCache) (now_ns now : ℤ) (request : AuctionRequest)
    (dynamic : List DynamicBid) where
  -- The answer over a snapshot of some age: too old and refused; or too old and served, with a refresh
  -- asked for; or young enough and served, with the cache left alone.
  abbrev pub FromSnapshot : BidList → ℤ → BidCache × AuctionDecision → Type 0
  FromSnapshot l age r =
      ((cache.policy.max_snapshot_age <ℤ age)
        × (cache.policy.stale_action ≡ no_bid_on_stale)
        × Asked cache request.placement_id r.0
        × (r.1 ≡ declined (bytes "stale_snapshot") 0 false age))
      ⊎ ((cache.policy.max_snapshot_age <ℤ age)
          × (cache.policy.stale_action ≢ no_bid_on_stale)
          × Asked cache request.placement_id r.0
          × Decided request now (offers l.bids dynamic) true age r.1)
      ⊎ ((age ≤ℤ cache.policy.max_snapshot_age)
          × (r.0 ≡ cache)
          × Decided request now (offers l.bids dynamic) false age r.1)

  abbrev pub Answered : BidCache × AuctionDecision → Type 0
  Answered r =
      (((load request.placement_id cache.entries ≡ none)
          ⊎ (load request.placement_id cache.entries ≡ some none))
        × Asked cache request.placement_id r.0
        × (r.1 ≡ declined (bytes "cold_cache") 0 false (pos 0)))
      ⊎ ((l : BidList) × (load request.placement_id cache.entries ≡ some (some l))
          × FromSnapshot l (sub_time now_ns l.refreshed_at_ns) r)

  run-FromSnapshot :
      (l : BidList) (r : BidCache × AuctionDecision)
      → Rejected policy cache now_ns now request dynamic l r
        ⊎ Served policy cache now_ns now request dynamic l r
      → FromSnapshot l (sub_time now_ns l.refreshed_at_ns) r
  run-FromSnapshot l (c, d) (inl (old, reject, e, f)) = inl (
    old,
    reject,
    subst (Asked cache request.placement_id) (sym e)
        (refresh_async-Asked cache request.placement_id),
    f,
  )
  run-FromSnapshot l (c, d) (inr (young, e, f)) =
      let age = sub_time now_ns l.refreshed_at_ns in
      let k =
        subst
          (Decided request now (offers l.bids dynamic) (ltb_ℤ cache.policy.max_snapshot_age age)
            age)
          (sym f) (decide-Decided policy request (served cache now_ns l) now l.bids dynamic) in
      elim (Bool-cases (ltb_ℤ cache.policy.max_snapshot_age age)) [
        | inl t ↦ inr (
            inl (
              ground arith,
              elim young [ inl y ↦ absurd (ground arith) | inr n ↦ n ],
              subst (Asked cache request.placement_id) (sym (rw t at e))
                  (refresh_async-Asked cache request.placement_id),
              rw t at k,
            ))
        | inr t ↦ inr (inr (ground arith, rw t at e, rw t at k))
      ]

  -- A run answers by the entry of the cache for the placement. Without an entry, or with one that has no
  -- bids yet, the answer is no bid for a cold cache, and a refresh is asked for. A snapshot older than the
  -- policy's age asks for one too: it is refused as stale, with its age, if the policy says so, and served
  -- as stale otherwise. A younger one is served and leaves the cache alone. A decision over a snapshot that
  -- is served carries its age and staleness, counts the eligible offers, and is no bid, for that reason,
  -- where there are none; otherwise it is filled, without a reason, by an eligible offer that no eligible
  -- offer outranks, with its own effective price and bidder and a clearing price between the floor and that
  -- price. A refresh that is asked for starts if the placement has a name and none is in flight, and changes
  -- nothing otherwise.
  pub run-Answered : Answered (run policy cache now_ns now request dynamic)
  run-Answered = elim (run_cases policy cache now_ns now request dynamic) [
    | inl (e, c) ↦ inl (
      e,
      subst (Asked cache request.placement_id) (sym c.0)
          (refresh_async-Asked cache request.placement_id),
      c.1,
    )
    | inr (l, e, r) ↦ inr (l, e, run-FromSnapshot l _ r)
  ]
