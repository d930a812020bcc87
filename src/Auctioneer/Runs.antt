-- ===== src/Auctioneer/Runs.antt =====
-- The branches of `run`, by the snapshot that the cache holds.
use mathlib.Core.Bool.{false≢true}
use adserver.Common.Assoc.{load}
use adserver.Auction.{DynamicBid}
use adserver.Types.Bid.{AuctionRequest}
use adserver.Auctioneer.{AuctionDecision, no_decision, run, decide}
use adserver.Common.Int.{ℤ, ◌<ℤ◌, ◌≤ℤ◌, ltb_ℤ, pos}
use adserver.Cache.{
  BidCache, BidList, SnapshotState, sub_time, refresh_async, no_bid_on_stale, get, snapshot_of,
  cold,
}
use adserver.Types.Policy.{AuctionPolicy}
use adserver.Common.Text.{Str, bytes, str_eq, str_eq→eq, str_eq_refl}
use adserver.Common.{
  refl, List, ◌≡◌, true, ◌⊎◌, Option, ◌≢◌, ◌&&◌, if◌then◌else◌, some, none, inl, inr, Bool-cases,
  [], arith, sym, ◌∙◌,
}

abbrev pub decline : Str → ℤ → AuctionDecision
decline reason age = record no_decision { no_bid_reason = reason; snapshot_age = age }

-- What `get` says of a snapshot with these bids and this time.
abbrev pub served : BidCache → ℤ → BidList → SnapshotState
served cache now_ns l =
    let age = sub_time now_ns l.refreshed_at_ns in
    let stale = ltb_ℤ cache.policy.max_snapshot_age age in
    record {
      found = true;
      stale = stale;
      reject_stale = stale && str_eq cache.policy.stale_action no_bid_on_stale;
      age = age;
    }

get-empty :
    (c : BidCache) (now : ℤ) (placement : Str)
    → load placement c.entries ≡ none ⊎ (load placement c.entries ≡ some none)
    → get c now placement ≡ ([], cold)
unfolding get
get-empty c now placement (inl e) = rw (e, snapshot_of)
get-empty c now placement (inr e) = rw (e, snapshot_of)

pub get-found :
    (c : BidCache) (now : ℤ) (placement : Str) (l : BidList)
    → load placement c.entries ≡ some (some l)
    → get c now placement ≡ (l.bids, served c now l)
unfolding get
get-found c now placement l e = rw (e, snapshot_of)

module _ (policy : AuctionPolicy) (cache : BidCache) (now_ns now : ℤ) (request : AuctionRequest)
    (dynamic : List DynamicBid) where
  abbrev pub Cold : BidCache × AuctionDecision → Type 0
  Cold result =
      (result.0 ≡ refresh_async cache request.placement_id)
      × (result.1 ≡ decline (bytes "cold_cache") (pos 0))

  abbrev pub Rejected : BidList → BidCache × AuctionDecision → Type 0
  Rejected l result =
      (cache.policy.max_snapshot_age <ℤ sub_time now_ns l.refreshed_at_ns)
      × (cache.policy.stale_action ≡ no_bid_on_stale)
      × (result.0 ≡ refresh_async cache request.placement_id)
      × (result.1 ≡ decline (bytes "stale_snapshot") (sub_time now_ns l.refreshed_at_ns))

  abbrev pub Served : BidList → BidCache × AuctionDecision → Type 0
  Served l result =
      ((sub_time now_ns l.refreshed_at_ns ≤ℤ cache.policy.max_snapshot_age)
        ⊎ (cache.policy.stale_action ≢ no_bid_on_stale))
      × (result.0 ≡ (
          if ltb_ℤ cache.policy.max_snapshot_age (sub_time now_ns l.refreshed_at_ns)
          then refresh_async cache request.placement_id
          else cache))
      × (result.1 ≡ decide policy request (served cache now_ns l) now l.bids dynamic)

  run-empty :
      load request.placement_id cache.entries ≡ none
        ⊎ (load request.placement_id cache.entries ≡ some none)
      → Cold (run policy cache now_ns now request dynamic)
  unfolding run
  run-empty e = rw (get-empty cache now_ns request.placement_id e) (refl, refl)

  pub run-found :
      (l : BidList)
      → load request.placement_id cache.entries ≡ some (some l)
      → Rejected l (run policy cache now_ns now request dynamic)
        ⊎ Served l (run policy cache now_ns now request dynamic)
  unfolding run
  run-found l e =
      rw (get-found cache now_ns request.placement_id l e)
        (elim (Bool-cases
          (ltb_ℤ cache.policy.max_snapshot_age (sub_time now_ns l.refreshed_at_ns))) [
            | inr fresh ↦ rw fresh (inr (inl (ground arith), refl, refl))
            | inl stale ↦ elim (Bool-cases (str_eq cache.policy.stale_action no_bid_on_stale)) [
              | inl reject ↦
                  rw (stale, reject) (inl (ground arith, str_eq→eq _ _ reject, refl, refl))
              | inr serve ↦
                  rw (stale, serve)
                    (inr (
                      inr (λ same.
                          false≢true (sym (rw same at serve) ∙ str_eq_refl no_bid_on_stale)),
                      refl,
                      refl,
                    ))
            ]
          ])

  -- A run answers by the entry of the cache for the placement. Without an entry, or with one that has
  -- no bids yet, the answer is no bid for a cold cache. A snapshot older than the policy's age is rejected
  -- as stale if the policy says so; otherwise it is served, as is a younger one, and the decision is that
  -- of `decide`. All but a fresh snapshot leave the cache as `refresh_async` does.
  pub run_cases :
      let result = run policy cache now_ns now request dynamic in
      (((load request.placement_id cache.entries ≡ none)
          ⊎ (load request.placement_id cache.entries ≡ some none))
        × Cold result)
      ⊎ ((l : BidList) × (load request.placement_id cache.entries ≡ some (some l))
          × (Rejected l result ⊎ Served l result))
  run_cases = by_entry (load request.placement_id cache.entries) refl
    where
      by_entry :
          (o : Option (Option BidList))
          → load request.placement_id cache.entries ≡ o
          → (((load request.placement_id cache.entries ≡ none)
                ⊎ (load request.placement_id cache.entries ≡ some none))
              × Cold (run policy cache now_ns now request dynamic))
            ⊎ ((l : BidList) × (load request.placement_id cache.entries ≡ some (some l))
                × (Rejected l (run policy cache now_ns now request dynamic)
                    ⊎ Served l (run policy cache now_ns now request dynamic)))
      by_entry none e = inl (inl e, run-empty (inl e))
      by_entry (some none) e = inl (inr e, run-empty (inr e))
      by_entry (some (some l)) e = inr (l, e, run-found l e)
