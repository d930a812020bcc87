-- ===== src/Server/Updates.antt =====
-- internal/ads/server.go, `upsertBid`: what its reply says of the registry and of the cache.
use mathlib.Core.Path.{subst}
use adserver.Store.Client.Writes.{upsert_done}
use adserver.Cache.{refresh_async}
use adserver.Store.Client.{hashes_of, Registry, upsert, StoreError}
use adserver.Store.{upsert_script, refused}
use adserver.Server.{Server, Body, decode_json}
use adserver.Common.Text.{Str, contains, str_eq, str_eq→eq}
use adserver.Server.Bids.{
  upsert_decoded, upsert_bid, Links, updated, authorized, upsert_reply, is_stale, mutated,
}
use adserver.Types.Bid.{Bid, normalize, validate, normalize_twice}
use adserver.Common.{
  true, some, none, ◌≡◌, Option, arith, ◌≢◌, refl, inl, inr, Bool-cases, ap, ◌∙◌, ◌||◌,
  Option-cases, not, is_some, sym,
}

updated-injective : (a b : Bid) → updated a ≡ updated b → a ≡ b
updated-injective a b h = cc

upsert_reply-eq-updated :
    (a b : Bid) (o : Option StoreError) → upsert_reply a o ≡ updated b → (o ≡ none) × (a ≡ b)
unfolding upsert_reply
upsert_reply-eq-updated a b none h = (refl, updated-injective a b h)
upsert_reply-eq-updated a b (some e) h = elim (Bool-cases (is_stale e)) [
  | inl t ↦ let k = rw t at h in absurd (cc)
  | inr t ↦ let k = rw t at h in absurd (cc)
]

-- What a bid that was taken leaves behind.
pub record IsUpdated (marshal : Bid → Option Str) (s s' : Server) (id : Str) (b : Bid)
    : Type 0 where
  pub named : b.id ≡ id
  pub valid : validate b ≡ none
  pub payload : Str
  pub encoded : marshal b ≡ some payload
  pub newer :
      (upsert_script (hashes_of s.registry b.placement_id) b.id b.revision payload).1 ≢ refused
  pub written :
      hashes_of s'.registry b.placement_id
      ≡ (upsert_script (hashes_of s.registry b.placement_id) b.id b.revision payload).0
  pub announced : contains s'.registry.published b.placement_id ≡ true
  pub refreshed : s'.cache ≡ refresh_async s.cache b.placement_id

mutated_done :
    (s : Server) (placement : Str) (r : Registry) (o : Option StoreError)
    → o ≡ none
    → ((mutated s placement r o).registry ≡ r)
      × ((mutated s placement r o).cache ≡ refresh_async s.cache placement)
unfolding mutated
mutated_done s placement r none h = (refl, refl)
mutated_done s placement r (some e) h = absurd (cc)

upsert_decoded-IsUpdated :
    (marshal : Bid → Option Str) (s : Server) (l : Links) (id : Str) (bid b : Bid)
    → (upsert_decoded marshal s l id bid).1 ≡ updated b
    → (b ≡ normalize bid) × IsUpdated marshal s (upsert_decoded marshal s l id bid).0 id b
unfolding upsert_decoded
upsert_decoded-IsUpdated marshal s l id bid b h =
    let nb = normalize bid in
    let result = upsert marshal l.sadd_link l.eval_link l.publish_link nb s.registry in
    elim (Bool-cases (not (str_eq nb.id id) || is_some (validate nb))) [
      | inl t ↦ let k = rw t at h in absurd (cc)
      | inr t ↦
          let k = upsert_reply-eq-updated nb b result.1 (rw t at h) in
          let d =
            subst
              (λ x.
                (validate x ≡ none)
                × ((payload : Str) × (marshal x ≡ some payload)
                    × ((upsert_script (hashes_of s.registry x.placement_id) x.id x.revision
                          payload).1
                        ≢ refused)
                    × (hashes_of result.0 x.placement_id
                        ≡ (upsert_script (hashes_of s.registry x.placement_id) x.id x.revision
                            payload).0)
                    × (contains result.0.published x.placement_id ≡ true)))
              (normalize_twice bid ∙ k.1)
              (upsert_done marshal l.sadd_link l.eval_link l.publish_link nb s.registry k.0) in
          let m = mutated_done s nb.placement_id result.0 result.1 k.0 in
          rw t (
            sym k.1,
            record {
              named = ap (λ x. x.id) (sym k.1) ∙ str_eq→eq nb.id id (ground arith);
              valid = d.0;
              payload = d.1.0;
              encoded = d.1.1;
              newer = d.1.2;
              written = ap (λ x. hashes_of x b.placement_id) m.0 ∙ d.1.3;
              announced = ap (λ x. contains x.published b.placement_id) m.0 ∙ d.1.4;
              refreshed = m.1 ∙ ap (λ x. refresh_async s.cache x.placement_id) k.1;
            },
          )
    ]

-- A reply that the bid is updated, whatever answers of the registry were lost, is given only to an
-- authorized request, whose body is the bid with the path's id and, its pacing default filled in, is
-- valid; the script took it as newer or the same, the registry holds what the script left, the
-- placement's message is out, and the server has started to refresh its own snapshot.
pub upsert_bid-IsUpdated :
    (marshal : Bid → Option Str) (s : Server) (l : Links) (header id : Str) (body : Body Bid)
    → (b : Bid) → (upsert_bid marshal s l header id body).1 ≡ updated b
    → (authorized s header ≡ true)
      × ((bid : Bid) × (decode_json body ≡ some bid) × (b ≡ normalize bid))
      × IsUpdated marshal s (upsert_bid marshal s l header id body).0 id b
unfolding upsert_bid
upsert_bid-IsUpdated marshal s l header id body b h = elim (Bool-cases (authorized s header)) [
  | inr t ↦ let k = rw t at h in absurd (cc)
  | inl t ↦ elim (Option-cases (decode_json body)) [
    | inl d ↦ let k = rw (t, d) at h in absurd (cc)
    | inr (bid, d) ↦
        let k = rw (t, d) at h in
        let u = upsert_decoded-IsUpdated marshal s l id bid b k in
        rw (t, d) (refl, (bid, refl, u.0), u.1)
  ]
]
