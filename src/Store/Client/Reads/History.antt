-- ===== src/Store/Client/Reads/History.antt =====
-- What the registry's client keeps of every placement, whichever attempts fail and whichever answers are
-- lost.
use adserver.Common.Assoc.{load, store, has_key}
use adserver.Common.Text.{Str, str_eq, is_empty, str_eq→eq}
use adserver.Types.Bid.{Bid, normalize, validate}
use adserver.Common.{
  inl, inr, some, none, [], Option, Bool-cases, ℕ, ◌∷◌, ◌≡◌, ◌∙◌, ◌-◌, ◌^◌, ◌==◌, ◌||◌, List, ltb,
  sym, Option-cases,
}
use adserver.Store.Client.{
  Registry, hashes_of, Link, hashes_at, upsert, delete_bid, upsert_checked, upsert_payload,
}
use adserver.Store.{
  Hashes, upsert_at, delete_at, delete_script, tonumber, upsert_script, same_payload,
}
use adserver.Store.Client.Reads.Gone.{IsNamed, delete-IsNamed}
use adserver.Store.Client.Kept.{AtAll, write-AtAll}
use adserver.Store.Retry.{IsHash, upsert_script-IsHash, delete_script-IsHash}

-- A registry that upserts and deletes of the client have made of the empty one.
pub data History (marshal : Bid → Option Str) : Registry → Type 0 where
  starts : History marshal (record { placements = []; hashes = []; published = [] })
  upserts :
      {r : Registry} (sadd_link eval_link publish_link : Link) (bid : Bid)
      → History marshal r
      → History marshal (upsert marshal sadd_link eval_link publish_link bid r).0
  deletes :
      {r : Registry} (sadd_link eval_link publish_link : Link) (placement id : Str) (revision : ℕ)
      → History marshal r
      → History marshal (delete_bid sadd_link eval_link publish_link placement id revision r).0

-- The hashes hold no key twice, and the payloads are those of their keys.
abbrev pub IsTidy : (Str → Option Bid) → Hashes → Type 0
IsTidy u h = IsHash h × IsNamed u h.active

store-IsNamed :
    (u : Str → Option Bid) (id payload : Str) (m : List (Str × Str))
    → ((b : Bid) → u payload ≡ some b → b.id ≡ id)
    → IsNamed u m
    → IsNamed u (store id payload m)
unfolding store
store-IsNamed u id payload [] f n = (f, tt)
store-IsNamed u id payload ((k, p) ∷ m) f (n, ns) = elim (Bool-cases (str_eq k id)) [
  | inl t ↦ rw t ((λ b e. f b e ∙ sym (str_eq→eq k id t)), ns)
  | inr t ↦ rw t (n, store-IsNamed u id payload m f ns)
]

upsert_at-IsNamed :
    (u : Str → Option Bid) (h : Hashes) (o : Option ℕ) (id : Str) (revision : ℕ) (payload : Str)
    → ((b : Bid) → u payload ≡ some b → b.id ≡ id)
    → IsNamed u h.active
    → IsNamed u (upsert_at h o id revision payload).0.active
unfolding upsert_at
upsert_at-IsNamed u h none id revision payload f n = store-IsNamed u id payload h.active f n
upsert_at-IsNamed u h (some c) id revision payload f n =
    elim (Bool-cases (ltb (tonumber revision) (tonumber c))) [
      | inl t ↦ rw t n
      | inr t ↦ elim (Bool-cases (tonumber revision == tonumber c)) [
        | inl s ↦ elim (Bool-cases (same_payload (load id h.active) payload)) [
          | inl k ↦ rw (t, s, k) n
          | inr k ↦ rw (t, s, k) n
        ]
        | inr s ↦ rw (t, s) (store-IsNamed u id payload h.active f n)
      ]
    ]

delete_at-IsNamed :
    (u : Str → Option Bid) (h : Hashes) (o : Option ℕ) (id : Str) (revision : ℕ)
    → IsNamed u h.active
    → IsNamed u (delete_at h o id revision).0.active
unfolding delete_at
delete_at-IsNamed u h none id revision n = delete-IsNamed u id h.active n
delete_at-IsNamed u h (some c) id revision n =
    elim (Bool-cases (ltb (tonumber revision) (tonumber c))) [
      | inl t ↦ rw t n
      | inr t ↦ elim (Bool-cases (tonumber revision == tonumber c)) [
        | inl s ↦ elim (Bool-cases (has_key id h.active)) [
          | inl k ↦ rw (t, s, k) n
          | inr k ↦ rw (t, s, k) n
        ]
        | inr s ↦ rw (t, s) (delete-IsNamed u id h.active n)
      ]
    ]

-- What the decoder reads of an encoded bid has the bid's id.
abbrev pub ReadsIds : (Bid → Option Str) → (Str → Option Bid) → Type 0
ReadsIds marshal u =
    (b b' : Bid) (payload : Str) → marshal b ≡ some payload → u payload ≡ some b' → b'.id ≡ b.id

module _ (marshal : Bid → Option Str) (u : Str → Option Bid) (reads : ReadsIds marshal u) where
  upsert-IsTidy :
      (sadd_link eval_link publish_link : Link) (bid : Bid) (r : Registry)
      → AtAll (IsTidy u) r
      → AtAll (IsTidy u) (upsert marshal sadd_link eval_link publish_link bid r).0
  unfolding upsert upsert_checked upsert_payload upsert_script
  upsert-IsTidy sadd_link eval_link publish_link bid r q other =
      let b = normalize bid in
      elim (Option-cases (validate b)) [
        | inr (e, f) ↦ rw (upsert, f) (q other)
        | inl f ↦ elim (Option-cases (marshal b)) [
          | inl g ↦ rw (upsert, f, g) (q other)
          | inr (payload, g) ↦
              rw (upsert, f, g)
                (write-AtAll (IsTidy u) b.placement_id
                  (λ h. upsert_script h b.id b.revision payload)
                  (λ h t. (
                    upsert_script-IsHash h b.id b.revision payload t.0,
                    upsert_at-IsNamed u h (load b.id h.versions) b.id b.revision payload
                        (λ b' k. reads b b' payload g k) t.1,
                  ))
                  sadd_link eval_link publish_link r q other)
        ]
      ]

  delete_bid-IsTidy :
      (sadd_link eval_link publish_link : Link) (placement id : Str) (revision : ℕ) (r : Registry)
      → AtAll (IsTidy u) r
      → AtAll (IsTidy u) (delete_bid sadd_link eval_link publish_link placement id revision r).0
  unfolding delete_bid delete_script
  delete_bid-IsTidy sadd_link eval_link publish_link placement id revision r q other =
      elim (Bool-cases
        (is_empty placement || is_empty id || revision == 0 || ltb (2 ^ 63 - 1) revision)) [
          | inl t ↦ rw t (q other)
          | inr t ↦ rw t (
              write-AtAll (IsTidy u) placement (λ h. delete_script h id revision)
                (λ h t. (
                  delete_script-IsHash h id revision t.0,
                  delete_at-IsNamed u h (load id h.versions) id revision t.1,
                ))
                sadd_link eval_link publish_link r q other)
        ]

  -- Where the decoder reads back the ids that the encoder wrote: whatever upserts and deletes the registry
  -- has had since it was empty, and whichever of their attempts failed or lost their answers, the hashes
  -- of every placement hold no key twice, and each payload is that of a bid whose id is its key.
  pub History-IsTidy :
      (r : Registry) → History marshal r → (placement : Str) → IsTidy u (hashes_of r placement)
  unfolding hashes_of hashes_at load
  History-IsTidy r starts placement = (record { active_keys = tt; version_keys = tt }, tt)
  History-IsTidy r (upserts {r = s} sadd_link eval_link publish_link bid h) placement =
      upsert-IsTidy sadd_link eval_link publish_link bid s (History-IsTidy s h) placement
  History-IsTidy r (deletes {r = s} sadd_link eval_link publish_link p id revision h) placement =
      delete_bid-IsTidy sadd_link eval_link publish_link p id revision s (History-IsTidy s h)
        placement
