-- ===== src/Store/Client/Reads/Gone.antt =====
-- What a fetch no longer finds.
use adserver.SortBids.{sort_bids-perm}
use adserver.Store.Client.Deletes.{delete_bid_cases}
use adserver.Store.Retry.{IsHash}
use adserver.Types.Bid.{Bid, normalize-id}
use adserver.Common.Sorting.{SliceSort}
use adserver.Store.Client.{Link, Registry, hashes_of, delete_bid}
use adserver.Common.Assoc.{delete, has_key, has_key-delete}
use adserver.Common.Text.{Str, str_eq, str_eq_refl}
use adserver.Store.Client.Reads.{read_bids, values, fetch}
use adserver.Common.{
  refl, false, inl, inr, some, none, [], ◌∷◌, ◌≡◌, ◌∙◌, ◌==◌, Option, ℕ, List, ◌≢◌, All, Bool-cases,
  arith, sym, ltb, ap, All-perm,
}
use mathlib.Core.Path.{subst}
use mathlib.Core.Bool.{Bool-set}
use mathlib.Core.HLevel.{Π_prop}
use mathlib.Core.List.{Perm}
use adserver.Store.Client.Reads.Found.{fetch-eq-some, read_bids-cons, test}
use adserver.Store.{refused, delete_script, delete_at, Hashes, tonumber}

-- Each payload that decodes is that of a bid whose id is its key, as every upsert writes it.
abbrev pub IsNamed : (Str → Option Bid) → List (Str × Str) → Type 0
IsNamed u m = All (λ e. (b : Bid) → u e.1 ≡ some b → b.id ≡ e.0) m

-- The payload is of no bid with this id.
abbrev NotOf : (Str → Option Bid) → Str → Str → Type 0
NotOf u id payload = (b : Bid) → u payload ≡ some b → str_eq b.id id ≡ false

values-NotOf :
    (u : Str → Option Bid) (id : Str) (m : List (Str × Str))
    → IsNamed u m
    → has_key id m ≡ false
    → All (NotOf u id) (values m)
unfolding values has_key
values-NotOf u id [] n h = tt
values-NotOf u id ((k, payload) ∷ m) (n, ns) h =
    (λ b e. rw (n b e) (ground arith), values-NotOf u id m ns (ground arith))

read_bids-NotOf :
    (u : Str → Option Bid) (placement id : Str) (l : List Str) (bids : List Bid)
    → All (NotOf u id) l
    → read_bids u placement l ≡ some bids
    → All (λ b. str_eq b.id id ≡ false) bids
unfolding read_bids
read_bids-NotOf u placement id [] bids n h =
    let e : [] ≡ bids = cc in subst (All (λ b. str_eq b.id id ≡ false)) e tt
read_bids-NotOf u placement id (payload ∷ l) bids (n, ns) h =
    let (bid, later, e, f, q) = read_bids-cons u placement payload l bids h in
    let k = read_bids-NotOf u placement id l later ns f in
    elim (Bool-cases (test placement bid)) [
      | inl t ↦ rw (q, t) (rw (normalize-id bid) (n bid e), k)
      | inr t ↦ rw (q, t) k
    ]

pub delete-IsNamed :
    (u : Str → Option Bid) (id : Str) (m : List (Str × Str)) → IsNamed u m → IsNamed u (delete id m)
unfolding delete
delete-IsNamed u id [] n = tt
delete-IsNamed u id ((k, payload) ∷ m) (n, ns) = elim (Bool-cases (str_eq k id)) [
  | inl t ↦ rw t ns
  | inr t ↦ rw t (n, delete-IsNamed u id m ns)
]

-- Behind a delete that is accepted, nothing stands under the id.
abbrev IsGone : (Str → Option Bid) → Str → Hashes → Type 0
IsGone u id h = IsNamed u h.active × (has_key id h.active ≡ false)

delete_at-IsGone :
    (u : Str → Option Bid) (h : Hashes) (o : Option ℕ) (id : Str) (revision : ℕ)
    → IsHash h
    → IsNamed u h.active
    → (delete_at h o id revision).1 ≢ refused
    → IsGone u id (delete_at h o id revision).0
unfolding delete_at
delete_at-IsGone u h none id revision v n q = erased
  where
    erased : IsNamed u (delete id h.active) × (has_key id (delete id h.active) ≡ false)
    erased = (
      delete-IsNamed u id h.active n,
      has_key-delete id id h.active v.active_keys ∙ rw (str_eq_refl id) refl,
    )
delete_at-IsGone u h (some c) id revision v n q =
    elim (Bool-cases (ltb (tonumber revision) (tonumber c))) [
      | inl t ↦ absurd (q (rw t refl))
      | inr t ↦ elim (Bool-cases (tonumber revision == tonumber c)) [
        | inl s ↦ elim (Bool-cases (has_key id h.active)) [
          | inl k ↦ absurd (q (rw (t, s, k) refl))
          | inr k ↦ rw (t, s, k) (n, k)
        ]
        | inr s ↦
            rw (t, s)
              (
                delete-IsNamed u id h.active n,
                has_key-delete id id h.active v.active_keys ∙ rw (str_eq_refl id) refl,
              )
      ]
    ]

-- What a delete of the client that ends with no error has done.
delete_bid-done :
    (sadd_link eval_link publish_link : Link) (placement id : Str) (revision : ℕ) (r : Registry)
    → IsHash (hashes_of r placement)
    → let result = delete_bid sadd_link eval_link publish_link placement id revision r in
      result.1 ≡ none
      → ((delete_script (hashes_of r placement) id revision).1 ≢ refused)
        × (hashes_of result.0 placement ≡ (delete_script (hashes_of r placement) id revision).0)
delete_bid-done sadd_link eval_link publish_link placement id revision r v h =
    elim (delete_bid_cases sadd_link eval_link publish_link placement id revision r v) [
      | inl (t, q) ↦ let k = ap (λ x. x.1) q in absurd (cc)
      | inr ends ↦ elim ends [
        | inl q ↦ absurd (cc)
        | inr (inl q) ↦ let k = q.0 in absurd (cc)
        | inr (inr q) ↦ (q.1, q.2)
      ]
    ]

-- On a placement whose hashes hold no key twice and whose payloads are those of their keys: once a delete
-- of a bid ends with no error, a fetch of the placement that ends with none returns no bid with its id,
-- in whichever order it walks the payloads.
pub fetch-delete_bid :
    (sorting : SliceSort Bid) (u : Str → Option Bid) (order : List Str → List Str)
    → (sadd_link eval_link publish_link link : Link) (placement id : Str) (revision : ℕ)
      (r : Registry)
    → (bids : List Bid) → ((xs : List Str) → Perm (order xs) xs)
    → IsHash (hashes_of r placement)
    → IsNamed u (hashes_of r placement).active
    → let result = delete_bid sadd_link eval_link publish_link placement id revision r in
      result.1 ≡ none
      → fetch sorting u order link placement result.0 ≡ some bids
      → All (λ b. str_eq b.id id ≡ false) bids
unfolding delete_script
fetch-delete_bid sorting u order sadd_link eval_link publish_link link placement id revision r bids
      shuffled v n done h =
    let r' = (delete_bid sadd_link eval_link publish_link placement id revision r).0 in
    let (accepted, left) =
      delete_bid-done sadd_link eval_link publish_link placement id revision r v done in
    let gone : IsGone u id (hashes_of r' placement) =
      subst (IsGone u id) (sym left)
        (delete_at-IsGone u (hashes_of r placement) _ id revision v n accepted) in
    let (found, f, e) = fetch-eq-some sorting u order link placement r' bids h in
    let payloads = values (hashes_of r' placement).active in
    let clean =
      All-perm (NotOf u id) (λ p. Π_prop (λ b. Π_prop (λ e. Bool-set _ _))) (shuffled payloads)
        (values-NotOf u id _ gone.0 gone.1) in
    let k = read_bids-NotOf u placement id (order payloads) found clean f in
    subst (All (λ b. str_eq b.id id ≡ false)) (sym e)
      (All-perm (λ b. str_eq b.id id ≡ false) (λ b. Bool-set _ _) (sort_bids-perm sorting found) k)
