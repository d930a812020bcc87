-- ===== src/Store/Client/Reads/Found.antt =====
-- What a fetch finds.
use adserver.Store.Client.Writes.{upsert_done}
use adserver.Store.{upsert_script, Hashes, refused, upsert_at, same_payload}
use adserver.Store.Client.Outcome.{retry_cases}
use mathlib.Core.Logic.Or
use mathlib.Core.List.Perm
use adserver.SortBids.{IsRanked, sort_bids-IsRanked, sort_bids-perm, sort_bids}
use adserver.Common.Sorting.{SliceSort}
use adserver.Store.Client.{retry_topology, Link, Registry, hashes_of, upsert}
use mathlib.Core.Path.{subst}
use mathlib.Core.List.{Mem, mem-cons_self, mem-cons_of_mem, not-mem-nil, Perm, Mem-prop, mem-cons}
use adserver.Common.Assoc.{load, load-store}
use adserver.Store.Client.Reads.{read_bids, values, fetch, hgetall, fetch_values, sorted_bids}
use adserver.Types.Bid.{Bid, validate, normalize, normalize-placement, normalize_twice}
use adserver.Common.Text.{Str, str_eq→eq, str_eq, str_eq_refl}
use adserver.Common.{
  none, ◌≡◌, true, inl, inr, some, [], ◌∷◌, ◌∙◌, ◌&&◌, if◌then◌else◌, arith, Bool, Option-cases,
  Option, not, List, is_some, All, Bool-cases, sym, ap, ℕ, ◌≢◌, refl,
}

abbrev pub IsFound : Str → Bid → Type 0
IsFound placement b = (validate b ≡ none) × (b.placement_id ≡ placement) × (normalize b ≡ b)

abbrev pub test : Str → Bid → Bool
test placement bid = not (is_some (validate (normalize bid))) && str_eq bid.placement_id placement

test-IsFound :
    (placement : Str) (bid : Bid) → test placement bid ≡ true → IsFound placement (normalize bid)
test-IsFound placement bid h = elim (Option-cases (validate (normalize bid))) [
  | inl e ↦ (
    e,
    normalize-placement bid ∙ str_eq→eq bid.placement_id placement (ground arith),
    normalize_twice bid,
  )
  | inr (x, e) ↦ let k = rw e at h in absurd (cc)
]

-- The rest of a walk behind a payload that decodes.
pub read_bids-cons :
    (u : Str → Option Bid) (placement payload : Str) (l : List Str) (bids : List Bid)
    → read_bids u placement (payload ∷ l) ≡ some bids
    → (bid : Bid) × (later : List Bid) × (u payload ≡ some bid)
      × (read_bids u placement l ≡ some later)
      × (bids ≡ (if test placement bid then normalize bid ∷ later else later))
unfolding read_bids
read_bids-cons u placement payload l bids h = elim (Option-cases (u payload)) [
  | inl e ↦ let k = rw (e, read_bids) at h in absurd (cc)
  | inr (bid, e) ↦ elim (Option-cases (read_bids u placement l)) [
    | inl f ↦ let k = rw (e, f, read_bids) at h in absurd (cc)
    | inr (later, f) ↦ elim (Bool-cases (test placement bid)) [
      | inl t ↦ let k = rw (e, f, t, read_bids) at h in (bid, later, e, f, rw t (cc))
      | inr t ↦ let k = rw (e, f, t, read_bids) at h in (bid, later, e, f, rw t (cc))
    ]
  ]
]

read_bids-IsFound :
    (u : Str → Option Bid) (placement : Str) (l : List Str) (bids : List Bid)
    → read_bids u placement l ≡ some bids
    → All (IsFound placement) bids
unfolding read_bids
read_bids-IsFound u placement [] bids h =
    let e : [] ≡ bids = cc in subst (All (IsFound placement)) e tt
read_bids-IsFound u placement (payload ∷ l) bids h =
    let (bid, later, e, f, q) = read_bids-cons u placement payload l bids h in
    let k = read_bids-IsFound u placement l later f in
    elim (Bool-cases (test placement bid)) [
      | inl t ↦ rw (q, t) (test-IsFound placement bid t, k)
      | inr t ↦ rw (q, t) k
    ]

values-mem : (id p : Str) (m : List (Str × Str)) → load id m ≡ some p → Mem p (values m)
unfolding load values
values-mem id p [] h = absurd (cc)
values-mem id p ((j, v) ∷ m) h = elim (Bool-cases (str_eq j id)) [
  | inl t ↦
      let e : v ≡ p = let k = rw t at h in cc in
      subst (λ x. Mem p (x ∷ values m)) (sym e) mem-cons_self
  | inr t ↦ mem-cons_of_mem v (values-mem id p m (rw t at h))
]

same_bid : (a b : Bid) → some a ≡ some b → a ≡ b
same_bid a b h = cc

read_bids-mem :
    (u : Str → Option Bid) (placement payload : Str) (b : Bid) (l : List Str) (bids : List Bid)
    → u payload ≡ some b
    → test placement b ≡ true
    → read_bids u placement l ≡ some bids
    → Mem payload l
    → Mem (normalize b) bids
read_bids-mem u placement payload b [] bids d t h m = absurd (not-mem-nil m)
read_bids-mem u placement payload b (x ∷ l) bids d t h m =
    let (bid, later, e, f, q) = read_bids-cons u placement x l bids h in
    Or.elim Mem-prop (mem-cons.0 m)
      (λ same.
        let k : b ≡ bid = same_bid b bid (sym d ∙ ap u same ∙ e) in rw (q, ← k, t) mem-cons_self)
      (λ n.
        let k = read_bids-mem u placement payload b l later d t f n in
        elim (Bool-cases (test placement bid)) [
          | inl s ↦ rw (q, s) (mem-cons_of_mem (normalize bid) k)
          | inr s ↦ rw (q, s) k
        ])

-- A fetch reads the hashes that the registry has.
retry-hgetall :
    (link : Link) (placement : Str) (r : Registry) (entries : List (Str × Str))
    → (retry_topology link (hgetall placement) r).1 ≡ some entries
    → entries ≡ (hashes_of r placement).active
unfolding hgetall
retry-hgetall link placement r entries h = elim (retry_cases link (hgetall placement) r) [
  | inl e ↦ absurd (cc)
  | inr (r0, w, e) ↦
      let k = sym (ap (λ x. x.1) e) ∙ h in
      let q : r0 ≡ r = elim w [ inl a ↦ a | inr a ↦ a ] in
      let read : (hashes_of r0 placement).active ≡ entries = cc in
      sym read ∙ ap (λ x. (hashes_of x placement).active) q
]

pub fetch-eq-some :
    (sorting : SliceSort Bid) (u : Str → Option Bid) (order : List Str → List Str) (link : Link)
    → (placement : Str) (r : Registry) (bids : List Bid)
    → fetch sorting u order link placement r ≡ some bids
    → (found : List Bid) × (read_bids u placement (order (values (hashes_of r placement).active))
        ≡ some found)
      × (bids ≡ sort_bids sorting found)
unfolding fetch fetch_values sorted_bids
fetch-eq-some sorting u order link placement r bids h =
    elim (Option-cases (retry_topology link (hgetall placement) r).1) [
      | inl e ↦ let k = rw e at h in absurd (cc)
      | inr (entries, e) ↦
          let q = retry-hgetall link placement r entries e in
          let k = rw e at h in
          elim (Option-cases (read_bids u placement (order (values entries)))) [
            | inl f ↦ let m = rw (f, sorted_bids) at k in absurd (cc)
            | inr (found, f) ↦
                let m = rw (f, sorted_bids) at k in
                (found, subst (λ x. read_bids u placement (order (values x)) ≡ some found) q f, cc)
          ]
    ]

-- What a fetch returns with no error is in auction order, and are bids for the placement that pass the
-- validation and have their pacing default filled in.
pub fetch-IsFound :
    (sorting : SliceSort Bid) (u : Str → Option Bid) (order : List Str → List Str) (link : Link)
    → (placement : Str) (r : Registry) (bids : List Bid)
    → fetch sorting u order link placement r ≡ some bids
    → IsRanked bids × ((found : List Bid) × Perm bids found × All (IsFound placement) found)
fetch-IsFound sorting u order link placement r bids h =
    let (found, f, e) = fetch-eq-some sorting u order link placement r bids h in
    (
      subst IsRanked (sym e) (sort_bids-IsRanked sorting found),
      (
        found,
        subst (λ x. Perm x found) (sym e) (sort_bids-perm sorting found),
        read_bids-IsFound u placement (order (values (hashes_of r placement).active)) found f,
      ),
    )

same_payload-eq :
    (o : Option Str) (payload : Str) → same_payload o payload ≡ true → o ≡ some payload
unfolding same_payload
same_payload-eq none payload h = cc
same_payload-eq (some p) payload h = ap some (str_eq→eq p payload h)

upsert_at-active :
    (h : Hashes) (o : Option ℕ) (id : Str) (revision : ℕ) (payload : Str)
    → (upsert_at h o id revision payload).1 ≢ refused
    → load id (upsert_at h o id revision payload).0.active ≡ some payload
unfolding upsert_at
upsert_at-active h none id revision payload n =
    rw (load-store id id payload h.active, str_eq_refl id) refl
upsert_at-active h (some c) id revision payload n = ground (
  arith,
  load-store id id payload h.active,
  str_eq_refl id,
  same_payload-eq (load id h.active) payload,
  n,
)

-- The payload that an accepted upsert leaves is the one that it brought.
upsert_script-active :
    (h : Hashes) (id : Str) (revision : ℕ) (payload : Str)
    → (upsert_script h id revision payload).1 ≢ refused
    → load id (upsert_script h id revision payload).0.active ≡ some payload
unfolding upsert_script
upsert_script-active h id revision payload n =
    upsert_at-active h (load id h.versions) id revision payload n

-- Where the decoder reads back what the encoder wrote of the bid, and the map's walk visits its values
-- in some order: a fetch of its placement that ends with no error, on the registry that an upsert with
-- no error leaves, finds the bid with its pacing default filled in.
pub fetch-upsert :
    (sorting : SliceSort Bid) (marshal : Bid → Option Str) (u : Str → Option Bid)
    → (order : List Str → List Str) (sadd_link eval_link publish_link link : Link) (bid : Bid)
      (r : Registry)
    → (bids : List Bid) → ((xs : List Str) → Perm (order xs) xs)
    → ((p : Str) → marshal (normalize bid) ≡ some p → u p ≡ some (normalize bid))
    → let result = upsert marshal sadd_link eval_link publish_link bid r in
      result.1 ≡ none
      → fetch sorting u order link bid.placement_id result.0 ≡ some bids
      → Mem (normalize bid) bids
fetch-upsert sorting marshal u order sadd_link eval_link publish_link link bid r bids shuffled back
      done h =
    let b = normalize bid in
    let p = bid.placement_id in
    let r' = (upsert marshal sadd_link eval_link publish_link bid r).0 in
    let q : b.placement_id ≡ p = normalize-placement bid in
    let (valid, (payload, encoded, newer, written, out)) =
      upsert_done marshal sadd_link eval_link publish_link bid r done in
    let (found, f, e) = fetch-eq-some sorting u order link p r' bids h in
    let active : load b.id (hashes_of r' p).active ≡ some payload =
      ap (λ x. load b.id (hashes_of r' x).active) (sym q)
      ∙ ap (λ x. load b.id x.active) written
      ∙ upsert_script-active (hashes_of r b.placement_id) b.id b.revision payload newer in
    let walked =
      (Perm.mem_iff (shuffled (values (hashes_of r' p).active))).1
        (values-mem b.id payload (hashes_of r' p).active active) in
    let kept : test p b ≡ true = rw (normalize_twice bid, valid, q, str_eq_refl p) refl in
    let m =
      read_bids-mem u p payload b (order (values (hashes_of r' p).active)) found
        (back payload encoded) kept f walked in
    subst (λ x. Mem b x) (sym e)
      ((Perm.mem_iff (sort_bids-perm sorting found)).1
        (subst (λ x. Mem x found) (normalize_twice bid) m))
