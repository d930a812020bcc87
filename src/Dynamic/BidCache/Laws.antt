-- ===== src/Dynamic/BidCache/Laws.antt =====
-- The DSP cache stays within its bound and counts its entries; a put is seen by later gets, and
-- evicts only what has expired.
use adserver.Auction.{DynamicBid}
use mathlib.Core.Bool.{false≢true}
use adserver.Common.Assoc.{
  has_key, delete, length-delete, DistinctKeys, load, delete-DistinctKeys, load-none_of_has_key,
  store-DistinctKeys, store, has_key-delete_ne, length-store,
}
use adserver.Common.Int.{◌+ℤ◌, pos, ℤ, negsuc, leb_ℤ}
use adserver.Common.Word.{add64, IsInt64, to_int64_id, add64-pos, to_int64}
use adserver.Common.Text.{Str}
use adserver.Dynamic.BidCache.{
  DynamicBidCache, new_dynamic_bid_cache, evict, DynamicBidList, is_expired, is_full, evict_key,
  dropped, add_entry, put, put_entry,
}
use adserver.Common.{
  ℕ, refl, true, inl, inr, suc, [], ◌∷◌, ◌≡◌, ◌^◌, ◌≤◌, ◌<◌, List, length, arith, Bool-cases, false,
  ltb, ◌∙◌, if◌then◌else◌, ap, sym,
}

-- The count is the number of entries, the keys are distinct, and the limit holds.
pub record IsValid (c : DynamicBidCache) : Type 0 where
  pub limit : ℕ
  pub limited : c.max_keys ≡ pos limit
  pub in_range : limit < 2 ^ 63
  pub counted : c.count ≡ pos (length c.entries)
  pub bounded : length c.entries ≤ limit
  pub distinct : DistinctKeys c.entries

pub new_dynamic_bid_cache-IsValid :
    (max_keys : ℤ) → IsInt64 max_keys → IsValid (new_dynamic_bid_cache max_keys)
unfolding new_dynamic_bid_cache
new_dynamic_bid_cache-IsValid (pos n) h = elim (Bool-cases (ltb n 1)) [
  | inl small ↦ record {
    limit = 10000;
    limited = ground arith;
    in_range = omega arith;
    counted = refl;
    bounded = omega arith;
    distinct = tt;
  }
  | inr large ↦ record {
    limit = n;
    limited = ground arith;
    in_range = omega arith;
    counted = refl;
    bounded = omega arith;
    distinct = tt;
  }
]
new_dynamic_bid_cache-IsValid (negsuc n) h = record {
  limit = 10000;
  limited = ground arith;
  in_range = omega arith;
  counted = refl;
  bounded = omega arith;
  distinct = tt;
}

decrement : (n : ℕ) → suc n < 2 ^ 63 → add64 (pos (suc n)) (negsuc 0) ≡ pos n
unfolding add64 ◌+ℤ◌
decrement n h = ground (arith, to_int64_id (pos n) (omega arith))

pub is_expired-has_key :
    (k : Str) (m : List (Str × DynamicBidList)) (now : ℤ)
    → is_expired (load k m) now ≡ true
    → has_key k m ≡ true
is_expired-has_key k m now e = elim (Bool-cases (has_key k m)) [
  | inl h ↦ h
  | inr h ↦ absurd (false≢true (rw (load-none_of_has_key k m h) at e))
]

pub dropped-IsValid :
    (c : DynamicBidCache) (k : Str) → has_key k c.entries ≡ true → IsValid c → IsValid (dropped c k)
dropped-IsValid c k h v = record {
  limit = v.limit;
  limited = v.limited;
  in_range = v.in_range;
  counted =
      rw (v.counted, ← length-delete k c.entries h)
        (decrement (length (delete k c.entries))
          (omega (arith, length-delete k c.entries h, v.bounded, v.in_range)));
  bounded = omega (arith, length-delete k c.entries h, v.bounded);
  distinct = delete-DistinctKeys k c.entries v.distinct;
}

-- What every step of the `Range` keeps, the `Range` keeps.
pub evict_inv {κ} :
    (P : DynamicBidCache → Type κ) (now : ℤ)
    → ((c : DynamicBidCache) (k : Str) → P c → P (evict_key c now k))
    → (c : DynamicBidCache) (ks : List Str) → P c
    → P (evict c now ks)
unfolding evict
evict_inv P now keep c [] v = v
evict_inv P now keep c (k ∷ ks) v = elim (Bool-cases (is_full (evict_key c now k))) [
  | inl e ↦ rw (e, evict) (evict_inv P now keep (evict_key c now k) ks (keep c k v))
  | inr e ↦ rw (e, evict) (keep c k v)
]

pub evict_key-IsValid :
    (now : ℤ) (c : DynamicBidCache) (k : Str) → IsValid c → IsValid (evict_key c now k)
unfolding evict_key
evict_key-IsValid now c k v = elim (Bool-cases (is_expired (load k c.entries) now)) [
  | inl e ↦ rw e (dropped-IsValid c k (is_expired-has_key k c.entries now e) v)
  | inr e ↦ rw e v
]

pub not_full-lt :
    (c : DynamicBidCache) (v : IsValid c) → is_full c ≡ false → length c.entries < v.limit
not_full-lt c v room = below (length c.entries) v.limit (rw v.limited at (rw v.counted at room))
  where
    below : (n m : ℕ) → leb_ℤ (pos m) (pos n) ≡ false → n < m
    below n m h = ground arith

pub length-store_new :
    (c : DynamicBidCache) (key : Str) (l : DynamicBidList)
    → has_key key c.entries ≡ false
    → length (store key l c.entries) ≡ suc (length c.entries)
length-store_new c key l new =
    length-store key l c.entries
    ∙ ap (λ t. if t then length c.entries else suc (length c.entries)) new

add_entry-IsValid :
    (c : DynamicBidCache) (key : Str) (l : DynamicBidList)
    → has_key key c.entries ≡ false
    → is_full c ≡ false
    → IsValid c
    → IsValid (add_entry c key l)
add_entry-IsValid c key l new room v = record {
  limit = v.limit;
  limited = v.limited;
  in_range = v.in_range;
  counted =
      rw
        (
          v.counted,
          length-store_new c key l new,
          add64-pos (length c.entries) 1 (omega (arith, not_full-lt c v room)),
        )
        (ap pos (omega arith));
  bounded = omega (arith, length-store_new c key l new, not_full-lt c v room);
  distinct = store-DistinctKeys key l c.entries v.distinct;
}

pub evict_key-has_key :
    (now : ℤ) (key : Str) (c : DynamicBidCache) (k : Str)
    → has_key key c.entries ≡ false
    → has_key key (evict_key c now k).entries ≡ false
unfolding evict_key
evict_key-has_key now key c k h = ground (arith, has_key-delete_ne k key c.entries)

pub make_room-IsValid :
    (c : DynamicBidCache) (now : ℤ) (order : List Str)
    → IsValid c
    → IsValid (if is_full c then evict c now order else c)
make_room-IsValid c now order v = elim (Bool-cases (is_full c)) [
  | inl e ↦ rw e (evict_inv IsValid now (evict_key-IsValid now) c order v)
  | inr e ↦ rw e v
]

pub make_room-has_key :
    (c : DynamicBidCache) (now : ℤ) (order : List Str) (key : Str)
    → has_key key c.entries ≡ false
    → has_key key (if is_full c then evict c now order else c).entries ≡ false
make_room-has_key c now order key h = elim (Bool-cases (is_full c)) [
  | inl e ↦
      rw e
        (evict_inv (λ d. has_key key d.entries ≡ false) now (evict_key-has_key now key) c order h)
  | inr e ↦ rw e h
]

replace-IsValid :
    (c : DynamicBidCache) (key : Str) (l : DynamicBidList)
    → has_key key c.entries ≡ true
    → IsValid c
    → IsValid (record c { entries = store key l c.entries })
replace-IsValid c key l old v = record {
  limit = v.limit;
  limited = v.limited;
  in_range = v.in_range;
  counted = v.counted ∙ ap pos (sym same);
  bounded = omega (arith, same, v.bounded);
  distinct = store-DistinctKeys key l c.entries v.distinct;
}
  where
    same : length (store key l c.entries) ≡ length c.entries
    same =
        length-store key l c.entries
        ∙ ap (λ t. if t then length c.entries else suc (length c.entries)) old

put_entry-IsValid :
    (c : DynamicBidCache) (now : ℤ) (order : List Str) (key : Str) (l : DynamicBidList)
    → IsValid c
    → IsValid (put_entry c now order key l).0
unfolding put_entry
put_entry-IsValid c now order key l v = elim (Bool-cases (has_key key c.entries)) [
  | inl old ↦ rw old (replace-IsValid c key l old v)
  | inr new ↦
      rw new (elim (Bool-cases (is_full (if is_full c then evict c (to_int64 now) order else c))) [
        | inl full ↦ rw full (make_room-IsValid c (to_int64 now) order v)
        | inr room ↦ rw room (
            add_entry-IsValid _ key l (make_room-has_key c (to_int64 now) order key new) room
              (make_room-IsValid c (to_int64 now) order v))
      ])
]

-- A put keeps a valid cache valid, in whichever order the keys are visited: the count stays the
-- number of entries, which stays within the limit, and no key is held twice.
pub put-IsValid :
    (c : DynamicBidCache) (made_at now : ℤ) (order : List Str) (key : Str) (bids : List DynamicBid)
    → (ttl : ℤ) → IsValid c
    → IsValid (put c made_at now order key bids ttl).0
unfolding put
put-IsValid c made_at now order key bids ttl v = elim (Bool-cases (leb_ℤ ttl (pos 0))) [
  | inl e ↦ rw e v
  | inr e ↦ rw e (put_entry-IsValid c now order key _ v)
]
