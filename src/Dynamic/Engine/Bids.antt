-- ===== src/Dynamic/Engine/Bids.antt =====
-- internal/ads/dynamic_bidding.go, `BidderEngine`: the bids that the cache of the engine holds.
use adserver.Common.Word.{to_int64}
use mathlib.Core.Path.{subst}
use adserver.Dynamic.Sanitize.Laws.{IsOpen}
use adserver.Common.Int.{ℤ, leb_ℤ, pos}
use adserver.Dynamic.Key.{dynamic_cache_key}
use adserver.Auction.{DynamicBid}
use adserver.Types.Bid.{AuctionRequest}
use adserver.Common.Text.{Str, str_eq, str_eq→eq}
use adserver.Common.{
  inl, inr, some, none, [], ◌∷◌, ◌≡◌, All, List, Bool-cases, sym, true, false, if◌then◌else◌, ap,
  Bool,
}
use adserver.Dynamic.Engine.{as_dsp_request}
use adserver.Dynamic.BidCache.{
  put, evict, DynamicBidCache, DynamicBidList, evict_key, is_full, is_expired, add_entry, put_entry,
}
use adserver.Common.Assoc.{store, delete, load, has_key}

-- A bid that was sanitised for a request with this key.
abbrev pub IsOpenFor : Str → DynamicBid → Type 0
IsOpenFor key d =
    (request : AuctionRequest) × (dynamic_cache_key request ≡ key)
    × IsOpen d.bidder_id (as_dsp_request request) d

abbrev pub EntryIsOpen : Str × DynamicBidList → Type 0
EntryIsOpen p = All (IsOpenFor p.0) p.1.bids

store-EntryIsOpen :
    (k : Str) (l : DynamicBidList) (m : List (Str × DynamicBidList))
    → All (IsOpenFor k) l.bids
    → All EntryIsOpen m
    → All EntryIsOpen (store k l m)
unfolding store
store-EntryIsOpen k l [] b h = (b, tt)
store-EntryIsOpen k l ((j, w) ∷ m) b h = elim (Bool-cases (str_eq j k)) [
  | inl t ↦ rw t (subst (λ x. All (IsOpenFor x) l.bids) (sym (str_eq→eq j k t)) b, h.1)
  | inr t ↦ rw t (h.0, store-EntryIsOpen k l m b h.1)
]

delete-EntryIsOpen :
    (k : Str) (m : List (Str × DynamicBidList)) → All EntryIsOpen m → All EntryIsOpen (delete k m)
unfolding delete
delete-EntryIsOpen k [] h = tt
delete-EntryIsOpen k ((j, w) ∷ m) h = elim (Bool-cases (str_eq j k)) [
  | inl t ↦ rw t h.1
  | inr t ↦ rw t (h.0, delete-EntryIsOpen k m h.1)
]

pub load-IsOpenFor :
    (k : Str) (m : List (Str × DynamicBidList)) (l : DynamicBidList)
    → All EntryIsOpen m
    → load k m ≡ some l
    → All (IsOpenFor k) l.bids
unfolding load
load-IsOpenFor k [] l h q = absurd (cc)
load-IsOpenFor k ((j, w) ∷ m) l h q = elim (Bool-cases (str_eq j k)) [
  | inl t ↦
      let r = rw t at q in
      subst (λ x. All (IsOpenFor k) x.bids) (ap (λ o. elim o [ none ↦ w | some x ↦ x ]) r)
        (subst (λ x. All (IsOpenFor x) w.bids) (str_eq→eq j k t) h.0)
  | inr t ↦ load-IsOpenFor k m l h.1 (rw t at q)
]

evict_key-EntryIsOpen :
    (c : DynamicBidCache) (now : ℤ) (k : Str)
    → All EntryIsOpen c.entries
    → All EntryIsOpen (evict_key c now k).entries
unfolding evict_key
evict_key-EntryIsOpen c now k h = elim (Bool-cases (is_expired (load k c.entries) now)) [
  | inl t ↦ rw t (delete-EntryIsOpen k c.entries h)
  | inr t ↦ rw t h
]

evict-EntryIsOpen :
    (c : DynamicBidCache) (now : ℤ) (ks : List Str)
    → All EntryIsOpen c.entries
    → All EntryIsOpen (evict c now ks).entries
unfolding evict
evict-EntryIsOpen c now [] h = h
evict-EntryIsOpen c now (k ∷ ks) h =
    let one = evict_key-EntryIsOpen c now k h in
    elim (Bool-cases (is_full (evict_key c now k))) [
      | inl t ↦ rw t (evict-EntryIsOpen (evict_key c now k) now ks one)
      | inr t ↦ rw t one
    ]

abbrev added : DynamicBidCache → Str → DynamicBidList → DynamicBidCache × Bool
added c k l = if is_full c then (c, false) else (add_entry c k l, true)

added-EntryIsOpen :
    (c : DynamicBidCache) (k : Str) (l : DynamicBidList)
    → All (IsOpenFor k) l.bids
    → All EntryIsOpen c.entries
    → All EntryIsOpen (added c k l).0.entries
added-EntryIsOpen c k l b h = elim (Bool-cases (is_full c)) [
  | inl t ↦ rw t h
  | inr t ↦ rw t (store-EntryIsOpen k l c.entries b h)
]

put_entry-EntryIsOpen :
    (c : DynamicBidCache) (now : ℤ) (order : List Str) (k : Str) (l : DynamicBidList)
    → All (IsOpenFor k) l.bids
    → All EntryIsOpen c.entries
    → All EntryIsOpen (put_entry c now order k l).0.entries
unfolding put_entry
put_entry-EntryIsOpen c now order k l b h = elim (Bool-cases (has_key k c.entries)) [
  | inl t ↦ rw t (store-EntryIsOpen k l c.entries b h)
  | inr t ↦ elim (Bool-cases (is_full c)) [
    | inl f ↦
        rw (t, f)
          (added-EntryIsOpen (evict c (to_int64 now) order) k l b (evict-EntryIsOpen c _ order h))
    | inr f ↦ rw (t, f) (added-EntryIsOpen c k l b h)
  ]
]

pub put-EntryIsOpen :
    (c : DynamicBidCache) (made_at now : ℤ) (order : List Str) (k : Str) (bids : List DynamicBid)
    (ttl : ℤ)
    → All (IsOpenFor k) bids
    → All EntryIsOpen c.entries
    → All EntryIsOpen (put c made_at now order k bids ttl).0.entries
unfolding put
put-EntryIsOpen c made_at now order k bids ttl b h = elim (Bool-cases (leb_ℤ ttl (pos 0))) [
  | inl t ↦ rw t h
  | inr t ↦ rw t (put_entry-EntryIsOpen c now order k _ b h)
]
