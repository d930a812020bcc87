-- ===== src/Cache/Warm.antt =====
-- internal/ads/cache.go, `Warm`: what a reconciliation with no error leaves in the cache.
use adserver.Cache.Snapshots.{fresh}
use adserver.Common.Int.{ℤ}
use adserver.Common.Assoc.{load, load-store}
use adserver.Types.Bid.{Bid}
use adserver.Common.Text.{Str, str_eq, str_eq_refl}
use adserver.Cache.{BidCache, refresh_all, refresh, BidList, reconcile, count_reconciliation}
use adserver.Common.Sorting.{SliceSort}
use adserver.Common.{
  refl, true, inl, inr, some, none, [], ◌∷◌, ◌≡◌, ◌∙◌, List, Option, All, Bool-cases,
}

-- There is a snapshot of the placement.
abbrev pub HasSnapshot : BidCache → Str → Type 0
HasSnapshot c placement = (l : BidList) × (load placement c.entries ≡ some (some l))

-- The caches differ in their snapshots and counters only.
abbrev pub SameTasks : BidCache → BidCache → Type 0
SameTasks c d = (d.policy ≡ c.policy) × (d.inflight ≡ c.inflight) × (d.running ≡ c.running)

module _ (s : SliceSort Bid) where
  -- A snapshot stays while others are replaced.
  refresh-HasSnapshot :
      (c : BidCache) (p placement : Str) (fetched : List Bid) (now : ℤ)
      → HasSnapshot c placement
      → HasSnapshot (refresh s c p (some fetched) now).0 placement
  unfolding refresh
  refresh-HasSnapshot c p placement fetched now (l, h) = elim (Bool-cases (str_eq p placement)) [
    | inl t ↦ (
      fresh s fetched now,
      load-store p placement (some (fresh s fetched now)) c.entries ∙ rw t refl,
    )
    | inr t ↦ (l, load-store p placement (some (fresh s fetched now)) c.entries ∙ rw t h)
  ]

  refresh_self :
      (c : BidCache) (p : Str) (fetched : List Bid) (now : ℤ)
      → HasSnapshot (refresh s c p (some fetched) now).0 p
  unfolding refresh
  refresh_self c p fetched now = (
    fresh s fetched now,
    load-store p p (some (fresh s fetched now)) c.entries ∙ rw (str_eq_refl p) refl,
  )

  refresh_all-kept :
      (c : BidCache) (answers : List (Str × Option (List Bid) × ℤ)) (placement : Str)
      → HasSnapshot c placement
      → (refresh_all s c answers).1 ≡ true
      → HasSnapshot (refresh_all s c answers).0 placement
  unfolding refresh_all refresh
  refresh_all-kept c [] placement h ok = h
  refresh_all-kept c ((p, none, now) ∷ rest) placement h ok = absurd (cc)
  refresh_all-kept c ((p, some fetched, now) ∷ rest) placement h ok =
      refresh_all-kept (refresh s c p (some fetched) now).0 rest placement
        (refresh-HasSnapshot c p placement fetched now h) ok

  refresh_all-warm :
      (c : BidCache) (answers : List (Str × Option (List Bid) × ℤ))
      → (refresh_all s c answers).1 ≡ true
      → All (λ a. HasSnapshot (refresh_all s c answers).0 a.0) answers
  unfolding refresh_all refresh
  refresh_all-warm c [] ok = tt
  refresh_all-warm c ((p, none, now) ∷ rest) ok = absurd (cc)
  refresh_all-warm c ((p, some fetched, now) ∷ rest) ok =
      let d = (refresh s c p (some fetched) now).0 in
      (refresh_all-kept d rest p (refresh_self c p fetched now) ok, refresh_all-warm d rest ok)

  refresh_all-SameTasks :
      (c : BidCache) (answers : List (Str × Option (List Bid) × ℤ))
      → SameTasks c (refresh_all s c answers).0
  unfolding refresh_all refresh
  refresh_all-SameTasks c [] = (refl, refl, refl)
  refresh_all-SameTasks c ((p, none, now) ∷ rest) = (refl, refl, refl)
  refresh_all-SameTasks c ((p, some fetched, now) ∷ rest) =
      refresh_all-SameTasks (refresh s c p (some fetched) now).0 rest

abbrev pub Warm : BidCache → Option (List (Str × Option (List Bid) × ℤ)) → Type 0
Warm c none = ⊥
Warm c (some answers) = All (λ a. HasSnapshot c a.0) answers

pub reconcile-Warm :
    (s : SliceSort Bid) (c : BidCache) (answers : Option (List (Str × Option (List Bid) × ℤ)))
    → (reconcile s c answers).1 ≡ true
    → Warm (reconcile s c answers).0 answers × SameTasks c (reconcile s c answers).0
unfolding reconcile
reconcile-Warm s c none ok = absurd (cc)
reconcile-Warm s c (some answers) ok = (
  refresh_all-warm s (count_reconciliation s c) answers ok,
  refresh_all-SameTasks s (count_reconciliation s c) answers,
)
