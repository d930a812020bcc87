-- ===== src/Dynamic/BidCache/Gets.antt =====
-- What a put does to later gets, and when it is refused.
use mathlib.Core.Path.{subst}
use mathlib.Core.Bool.{false≢true}
use adserver.Common.Assoc.{load, store, has_key, load-store, load-delete, delete, length-delete}
use adserver.Auction.{DynamicBid}
use adserver.Dynamic.BidCache.Laws.{
  IsValid, evict_inv, evict_key-IsValid, is_expired-has_key, dropped-IsValid,
}
use adserver.Common.Text.{Str, str_eq_refl, str_eq, str_eq→eq}
use adserver.Common.Word.{to_int64}
use adserver.Common.Int.{ℤ, ◌≤ℤ◌, leb_ℤ, ◌+ℤ◌, pos}
use adserver.Dynamic.BidCache.{
  put_entry, fresh_bids, get, put, DynamicBidList, DynamicBidCache, evict_key, evict, is_full,
  is_expired, dropped,
}
use adserver.Common.{
  ℕ, refl, true, inl, inr, some, none, ◌≡◌, ◌∙◌, if◌then◌else◌, List, Bool-cases, arith, false,
  Option, [], ◌∷◌, ◌<◌, ap, sym, All, length,
}

fresh_bids-store :
    (key : Str) (l : DynamicBidList) (m : List (Str × DynamicBidList)) (t : ℤ)
    → fresh_bids (load key (store key l m)) t
      ≡ (if leb_ℤ l.expires_ns (to_int64 t) then none else some l.bids)
unfolding fresh_bids
fresh_bids-store key l m t = ground (arith, load-store key key l m, str_eq_refl key)

put_entry-get :
    (c : DynamicBidCache) (now t : ℤ) (order : List Str) (key : Str) (l : DynamicBidList)
    → (put_entry c now order key l).1 ≡ true
    → get (put_entry c now order key l).0 t key
      ≡ (if leb_ℤ l.expires_ns (to_int64 t) then none else some l.bids)
unfolding put_entry get
put_entry-get c now t order key l done = elim (Bool-cases (has_key key c.entries)) [
  | inl old ↦ rw old (fresh_bids-store key l c.entries t)
  | inr new ↦ elim (Bool-cases (is_full (if is_full c then evict c (to_int64 now) order else c))) [
    | inl full ↦ absurd (false≢true (rw (new, full) at done))
    | inr room ↦ rw (new, room) (fresh_bids-store key l _ t)
  ]
]

-- After a put that succeeds, a get of the key at any time returns the bids before the instant at
-- which they expire, and nothing from that instant on.
pub put-get :
    (c : DynamicBidCache) (made_at now t : ℤ) (order : List Str) (key : Str)
    → (bids : List DynamicBid) (ttl : ℤ) → (put c made_at now order key bids ttl).1 ≡ true
    → get (put c made_at now order key bids ttl).0 t key
      ≡ (if leb_ℤ (to_int64 (made_at +ℤ ttl)) (to_int64 t) then none else some bids)
unfolding put
put-get c made_at now t order key bids ttl done = elim (Bool-cases (leb_ℤ ttl (pos 0))) [
  | inl e ↦ absurd (false≢true (rw e at done))
  | inr e ↦ rw e (put_entry-get c now t order key _ (rw e at done))
]

module _ (now t : ℤ) (later : to_int64 now ≤ℤ to_int64 t) (j : Str) where
  expired-miss :
      (o : Option DynamicBidList) → is_expired o (to_int64 now) ≡ true → fresh_bids o t ≡ none
  unfolding fresh_bids
  expired-miss none e = refl
  expired-miss (some l) e = ground arith

  -- An entry that the `Range` drops has expired at every later time.
  evict_key-get :
      (c : DynamicBidCache) (k : Str)
      → IsValid c
      → get (evict_key c (to_int64 now) k) t j ≡ get c t j
  unfolding evict_key get
  evict_key-get c k v = elim (Bool-cases (is_expired (load k c.entries) (to_int64 now))) [
    | inr e ↦ rw e refl
    | inl e ↦
        rw (e, load-delete k j c.entries v.distinct)
          (elim (Bool-cases (str_eq k j)) [
            | inr other ↦ rw other refl
            | inl same ↦ rw same (
                sym (
                  expired-miss (load j c.entries) (
                    subst (λ x. is_expired (load x c.entries) (to_int64 now) ≡ true)
                      (str_eq→eq k j same) e)))
          ])
  ]

  evict-get :
      (c : DynamicBidCache) (ks : List Str)
      → IsValid c
      → get (evict c (to_int64 now) ks) t j ≡ get c t j
  evict-get c ks v =
      (evict_inv (λ d. (get d t j ≡ get c t j) × IsValid d) (to_int64 now)
        (λ d k h. (evict_key-get d k h.1 ∙ h.0, evict_key-IsValid (to_int64 now) d k h.1)) c ks
        (refl, v)).0

  make_room-get :
      (c : DynamicBidCache) (order : List Str)
      → IsValid c
      → get (if is_full c then evict c (to_int64 now) order else c) t j ≡ get c t j
  make_room-get c order v = elim (Bool-cases (is_full c)) [
    | inl e ↦ rw e (evict-get c order v)
    | inr e ↦ rw e refl
  ]

  put_entry-get_other :
      (c : DynamicBidCache) (order : List Str) (key : Str) (l : DynamicBidList)
      → IsValid c
      → str_eq key j ≡ false
      → get (put_entry c now order key l).0 t j ≡ get c t j
  unfolding put_entry get
  put_entry-get_other c order key l v other = elim (Bool-cases (has_key key c.entries)) [
    | inl old ↦ rw old (stored c)
    | inr new ↦
        rw new
          (elim (Bool-cases (is_full (if is_full c then evict c (to_int64 now) order else c))) [
            | inl full ↦ rw full (make_room-get c order v)
            | inr room ↦ rw room (
                stored (if is_full c then evict c (to_int64 now) order else c)
                ∙ make_room-get c order v)
          ])
  ]
    where
      stored :
          (d : DynamicBidCache)
          → fresh_bids (load j (store key l d.entries)) t ≡ fresh_bids (load j d.entries) t
      stored d =
          ap (λ o. fresh_bids o t)
            (load-store key j l d.entries ∙ ap (λ b. if b then some l else load j d.entries) other)

  -- A put into a valid cache leaves what a get of any other key returns, now or later: it evicts
  -- only expired entries.
  pub put-get_other :
      (c : DynamicBidCache) (made_at : ℤ) (order : List Str) (key : Str) (bids : List DynamicBid)
      → (ttl : ℤ) → IsValid c
      → str_eq key j ≡ false
      → get (put c made_at now order key bids ttl).0 t j ≡ get c t j
  unfolding put
  put-get_other c made_at order key bids ttl v other = elim (Bool-cases (leb_ℤ ttl (pos 0))) [
    | inl e ↦ rw e refl
    | inr e ↦ rw e (put_entry-get_other c order key _ v other)
  ]

dropped-room :
    (c : DynamicBidCache) (k : Str)
    → IsValid c
    → has_key k c.entries ≡ true
    → is_full (dropped c k) ≡ false
dropped-room c k v h =
    let d = dropped-IsValid c k h v in
    below (length (delete k c.entries)) v.limit (dropped c k) d.counted v.limited
      (omega (arith, length-delete k c.entries h, v.bounded))
  where
    below :
        (n m : ℕ) (d : DynamicBidCache)
        → d.count ≡ pos n
        → d.max_keys ≡ pos m
        → n < m
        → is_full d ≡ false
    below n m d e f h = rw (e, f) (ground arith)

evict_step :
    (c : DynamicBidCache) (now : ℤ) (k : Str) (ks : List Str)
    → is_full (evict c now (k ∷ ks)) ≡ true
    → (is_full (evict_key c now k) ≡ true) × (is_full (evict (evict_key c now k) now ks) ≡ true)
unfolding evict
evict_step c now k ks h = elim (Bool-cases (is_full (evict_key c now k))) [
  | inl e ↦ (e, rw (e, evict) at h)
  | inr e ↦ absurd (false≢true (sym e ∙ rw (e, evict) at h))
]

-- If there is still no room, no key that was visited had expired.
evict_full :
    (c : DynamicBidCache) (now : ℤ) (ks : List Str)
    → IsValid c
    → is_full (evict c now ks) ≡ true
    → All (λ k. is_expired (load k c.entries) now ≡ false) ks
unfolding evict_key
evict_full c now [] v h = tt
evict_full c now (k ∷ ks) v h =
    let step = evict_step c now k ks h in
    elim (Bool-cases (is_expired (load k c.entries) now)) [
      | inl e ↦ absurd (
          false≢true
            (sym (dropped-room c k v (is_expired-has_key k c.entries now e)) ∙ rw e at step.0))
      | inr e ↦ (e, evict_full c now ks v (rw e at step.1))
    ]

-- A put with a positive lifetime into a valid cache is refused only if the key is new, the cache is
-- full, and no key that the `Range` visited has expired.
pub put_refused :
    (c : DynamicBidCache) (made_at now : ℤ) (order : List Str) (key : Str) (bids : List DynamicBid)
    → (ttl : ℤ) → IsValid c
    → leb_ℤ ttl (pos 0) ≡ false
    → (put c made_at now order key bids ttl).1 ≡ false
    → (has_key key c.entries ≡ false)
      × (is_full c ≡ true)
      × All (λ k. is_expired (load k c.entries) (to_int64 now) ≡ false) order
unfolding put put_entry
put_refused c made_at now order key bids ttl v positive h =
    elim (Bool-cases (has_key key c.entries)) [
      | inl old ↦ absurd (false≢true (sym (rw (positive, old) at h)))
      | inr new ↦ elim (Bool-cases (is_full c)) [
        | inr room ↦ absurd (false≢true (sym (rw (positive, new, room, room) at h)))
        | inl full ↦ elim (Bool-cases (is_full (evict c (to_int64 now) order))) [
          | inr room ↦ absurd (false≢true (sym (rw (positive, new, full, room) at h)))
          | inl still ↦ (new, full, evict_full c (to_int64 now) order v still)
        ]
      ]
    ]
