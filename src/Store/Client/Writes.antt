-- ===== src/Store/Client/Writes.antt =====
-- The three commands of a write together.
use mathlib.Core.Path.{subst}
use adserver.Store.Retry.{upsert_script_again}
use adserver.Types.Bid.{Bid, normalize, BidError, validate}
use adserver.Store.Client.Outcome.{hashes_of-eval_script, retry_cases, after_any_sadd}
use adserver.Store.Client.{
  Registry, announced, publish, eval_script, hashes_of, Link, retry_topology, StoreError,
  unavailable, stale_revision, write, after_script, after_sadd, sadd, upsert, upsert_checked,
  upsert_payload, invalid, unencodable,
}
use adserver.Common.Text.{Str, contains, str_eq_refl}
use adserver.Common.{
  refl, true, inl, inr, some, none, ◌≡◌, ◌∙◌, ◌⊎◌, ◌↔◌, Option, ap, ◌≢◌, Option-cases, sym,
}
use adserver.Store.{refused, applied, unchanged, Hashes, Reply, upsert_script}

-- On these hashes a second run of the script does not move, and agrees with the first on a refusal.
abbrev IsRetriable : (Hashes → Hashes × Reply) → Hashes → Type 0
IsRetriable script h =
    ((script (script h).0).0 ≡ (script h).0)
    × (((script (script h).0).1 ≡ refused) ↔ ((script h).1 ≡ refused))

module _ (placement : Str) (script : Hashes → Hashes × Reply) where
  -- The error at the end of a write: the script's answer and effect on the placement's hashes before it.
  abbrev pub Ends : Registry → Registry × Option StoreError → Type 0
  Ends r result =
      (result.1 ≡ some unavailable)
      ⊎ ((result.1 ≡ some stale_revision) × ((script (hashes_of r placement)).1 ≡ refused))
      ⊎ ((result.1 ≡ none)
          × ((script (hashes_of r placement)).1 ≢ refused)
          × (hashes_of result.0 placement ≡ (script (hashes_of r placement)).0)
          × (contains result.0.placements placement ≡ true)
          × (contains result.0.published placement ≡ true))

module _ (placement : Str) (script : Hashes → Hashes × Reply) where
  -- What the script's answer and hashes are, run once or twice.
  after_any_script :
      (r r0 : Registry)
      → IsRetriable script (hashes_of r placement)
      → (r0 ≡ r) ⊎ (r0 ≡ (eval_script placement script r).0)
      → (hashes_of (eval_script placement script r0).0 placement
          ≡ (script (hashes_of r placement)).0)
        × ((eval_script placement script r0).0.placements ≡ r.placements)
        × (((eval_script placement script r0).1 ≡ refused)
            ↔ ((script (hashes_of r placement)).1 ≡ refused))
  unfolding eval_script
  after_any_script r r0 k (inl e) =
      rw e (hashes_of-eval_script placement script r, refl, (λ h. h, λ h. h))
  after_any_script r r0 k (inr e) =
      let first = hashes_of-eval_script placement script r in
      rw e (
        hashes_of-eval_script placement script (eval_script placement script r).0
            ∙ ap (λ h. (script h).0) first
            ∙ k.0,
        refl,
        rw first k.1,
      )

  after_publish :
      (r r0 : Registry)
      → (r0 ≡ r) ⊎ (r0 ≡ (publish placement r).0)
      → (hashes_of (publish placement r0).0 placement ≡ hashes_of r placement)
        × ((publish placement r0).0.placements ≡ r.placements)
        × (contains (publish placement r0).0.published placement ≡ true)
  unfolding publish hashes_of contains
  after_publish r r0 (inl e) = rw (e, str_eq_refl placement) (refl, refl, refl)
  after_publish r r0 (inr e) = rw (e, str_eq_refl placement) (refl, refl, refl)

  announced_cases :
      (link : Link) (r : Registry)
      → let result = announced (retry_topology link (publish placement) r) in
        (result.1 ≡ some unavailable)
        ⊎ ((result.1 ≡ none)
            × (hashes_of result.0 placement ≡ hashes_of r placement)
            × (result.0.placements ≡ r.placements)
            × (contains result.0.published placement ≡ true))
  unfolding announced
  announced_cases link r = elim (retry_cases link (publish placement) r) [
    | inl e ↦ inl (rw e refl)
    | inr (r0, h, e) ↦ let k = after_publish r r0 h in inr (rw e (refl, k.0, k.1, k.2))
  ]

  -- The end of a write whose script has answered.
  script-Ends :
      (link : Link) (r r1 : Registry) (reply : Reply)
      → (hashes_of r1 placement ≡ (script (hashes_of r placement)).0)
      → (contains r1.placements placement ≡ true)
      → ((reply ≡ refused) ↔ ((script (hashes_of r placement)).1 ≡ refused))
      → Ends placement script r (after_script link placement (r1, some reply))
  unfolding after_script
  script-Ends link r r1 refused e f k = inr (inl (refl, k.0 refl))
  script-Ends link r r1 applied e f k = elim (announced_cases link r1) [
    | inl h ↦ inl h
    | inr h ↦ inr (inr (h.0, λ x. let q = k.1 x in cc, h.1 ∙ e, rw h.2 f, h.3))
  ]
  script-Ends link r r1 unchanged e f k = elim (announced_cases link r1) [
    | inl h ↦ inl h
    | inr h ↦ inr (inr (h.0, λ x. let q = k.1 x in cc, h.1 ∙ e, rw h.2 f, h.3))
  ]

  sadd-Ends :
      (eval_link publish_link : Link) (r r0 : Registry)
      → IsRetriable script (hashes_of r placement)
      → (hashes_of r0 placement ≡ hashes_of r placement)
      → (contains r0.placements placement ≡ true)
      → Ends placement script r (
          after_script publish_link placement
            (retry_topology eval_link (eval_script placement script) r0))
  unfolding after_script
  sadd-Ends eval_link publish_link r r0 again e f =
      elim (retry_cases eval_link (eval_script placement script) r0) [
        | inl h ↦ inl (rw h refl)
        | inr (r1, w, h) ↦
            let k = after_any_script r0 r1 (subst (IsRetriable script) (sym e) again) w in
            rw h (
              script-Ends publish_link r (eval_script placement script r1).0
                (eval_script placement script r1).1 (k.0 ∙ ap (λ x. (script x).0) e) (rw k.1 f)
                (rw e at k.2))
      ]

  pub write_cases :
      (sadd_link eval_link publish_link : Link) (r : Registry)
      → IsRetriable script (hashes_of r placement)
      → Ends placement script r (write sadd_link eval_link publish_link placement script r)
  unfolding write after_sadd
  write_cases sadd_link eval_link publish_link r again =
      elim (retry_cases sadd_link (sadd placement) r) [
        | inl h ↦ inl (rw h refl)
        | inr (r0, w, h) ↦
            let k = after_any_sadd placement r r0 w in
            rw h (sadd-Ends eval_link publish_link r (sadd placement r0).0 again k.0 k.1)
      ]

-- An upsert ends in one of five ways, whichever attempts fail and whichever answers are lost. A bid
-- that does not pass the validation, with its pacing default filled in, or that cannot be encoded,
-- leaves the registry as it was, and the error says so. Otherwise a command has failed, or the script
-- refuses the bid on the hashes that its placement had and the error is a stale revision, or there is
-- no error, the script accepts the bid on those hashes and leaves the placement's hashes as they are
-- now, the placement is registered, and its message is published.
pub upsert_cases :
    (marshal : Bid → Option Str) (sadd_link eval_link publish_link : Link) (bid : Bid)
    → (r : Registry)
    → let b = normalize bid in
      let result = upsert marshal sadd_link eval_link publish_link bid r in
      ((e : BidError) × (validate b ≡ some e) × (result ≡ (r, some (invalid e))))
      ⊎ ((validate b ≡ none) × (marshal b ≡ none) × (result ≡ (r, some unencodable)))
      ⊎ ((payload : Str) × (validate b ≡ none)
          × (marshal b ≡ some payload)
          × Ends b.placement_id (λ h. upsert_script h b.id b.revision payload) r result)
unfolding upsert upsert_checked upsert_payload
upsert_cases marshal sadd_link eval_link publish_link bid r =
    let b = normalize bid in
    elim (Option-cases (validate b)) [
      | inl e ↦ elim (Option-cases (marshal b)) [
        | inl f ↦ inr (inl (e, f, rw (e, f) refl))
        | inr (payload, f) ↦ inr (
            inr (
              payload,
              e,
              f,
              rw (e, f)
                  (write_cases b.placement_id (λ h. upsert_script h b.id b.revision payload)
                    sadd_link eval_link publish_link r
                    (upsert_script_again (hashes_of r b.placement_id) b.id b.revision payload)),
            ))
      ]
      | inr (e, f) ↦ inl (e, f, rw f refl)
    ]

-- What an upsert of the client that ends with no error has done.
pub upsert_done :
    (marshal : Bid → Option Str) (sadd_link eval_link publish_link : Link) (bid : Bid)
    (r : Registry)
    → let b = normalize bid in
      let result = upsert marshal sadd_link eval_link publish_link bid r in
      result.1 ≡ none
      → (validate b ≡ none)
        × ((payload : Str) × (marshal b ≡ some payload)
            × ((upsert_script (hashes_of r b.placement_id) b.id b.revision payload).1 ≢ refused)
            × (hashes_of result.0 b.placement_id
                ≡ (upsert_script (hashes_of r b.placement_id) b.id b.revision payload).0)
            × (contains result.0.published b.placement_id ≡ true))
upsert_done marshal sadd_link eval_link publish_link bid r h =
    elim (upsert_cases marshal sadd_link eval_link publish_link bid r) [
      | inl (e, v, q) ↦ let k = ap (λ x. x.1) q in absurd (cc)
      | inr (inl (v, m, q)) ↦ let k = ap (λ x. x.1) q in absurd (cc)
      | inr (inr (payload, v, m, ends)) ↦ elim ends [
        | inl q ↦ absurd (cc)
        | inr (inl q) ↦ let k = q.0 in absurd (cc)
        | inr (inr q) ↦ (v, (payload, m, q.1, q.2, q.4))
      ]
    ]
