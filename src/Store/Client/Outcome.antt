-- ===== src/Store/Client/Outcome.antt =====
-- What the error of a write says of the registry, whatever answers are lost on the way.
use adserver.Common.Assoc.{load-store}
use adserver.Common.Text.{Str, contains, str_eq_refl}
use adserver.Common.{refl, true, inl, inr, some, none, ◌≡◌, ◌∙◌, ◌⊎◌, Option, Bool-cases}
use adserver.Store.Client.{
  fails, lost, answers, sadd, eval_script, Link, hashes_of, Registry, retry_topology, attempt,
  or_again, Attempt,
}
use adserver.Store.{Hashes, Reply}

-- An answer that arrives is that of the command on the registry before it, or after a first run of it.
module _ {ℓ} {A : Type ℓ} (link : Link) (operation : Registry → Registry × A) where
  abbrev pub Answered : Registry → Registry × Option A → Type ℓ
  Answered r result =
      (r0 : Registry) × ((r0 ≡ r) ⊎ (r0 ≡ (operation r).0))
      × (result ≡ ((operation r0).0, some (operation r0).1))

  attempt_cases :
      (t : Attempt) (r : Registry)
      → (((attempt t operation r).1 ≡ none)
          × (((attempt t operation r).0 ≡ r) ⊎ ((attempt t operation r).0 ≡ (operation r).0)))
        ⊎ (attempt t operation r ≡ ((operation r).0, some (operation r).1))
  unfolding attempt
  attempt_cases fails r = inl (refl, inl refl)
  attempt_cases lost r = inl (refl, inr refl)
  attempt_cases answers r = inr refl

  second_cases :
      (r r1 : Registry)
      → (r1 ≡ r) ⊎ (r1 ≡ (operation r).0)
      → ((or_again link operation r1 none).1 ≡ none) ⊎ Answered r (or_again link operation r1 none)
  unfolding or_again
  second_cases r r1 h = elim (Bool-cases link.is_cluster) [
    | inl e ↦ elim (attempt_cases link.again r1) [
      | inl k ↦ inl (rw e k.0)
      | inr k ↦ inr (r1, h, rw e k)
    ]
    | inr e ↦ inl (rw e refl)
  ]

  pub retry_cases :
      (r : Registry)
      → ((retry_topology link operation r).1 ≡ none) ⊎ Answered r (retry_topology link operation r)
  unfolding retry_topology or_again
  retry_cases r = elim (attempt_cases link.first r) [
    | inl k ↦ rw k.0 (second_cases r (attempt link.first operation r).0 k.1)
    | inr k ↦ rw k (inr (r, inl refl, refl))
  ]

pub hashes_of-sadd : (p q : Str) (r : Registry) → hashes_of (sadd p r).0 q ≡ hashes_of r q
unfolding sadd hashes_of
hashes_of-sadd p q r = elim (Bool-cases (contains r.placements p)) [
  | inl e ↦ rw e refl
  | inr e ↦ rw e refl
]

contains-sadd : (p : Str) (r : Registry) → contains (sadd p r).0.placements p ≡ true
unfolding sadd contains
contains-sadd p r = elim (Bool-cases (contains r.placements p)) [
  | inl e ↦ rw e e
  | inr e ↦ rw (e, str_eq_refl p) refl
]

pub hashes_of-eval_script :
    (p : Str) (script : Hashes → Hashes × Reply) (r : Registry)
    → hashes_of (eval_script p script r).0 p ≡ (script (hashes_of r p)).0
unfolding eval_script hashes_of
hashes_of-eval_script p script r =
    rw (load-store p p (script (hashes_of r p)).0 r.hashes, str_eq_refl p) refl

-- After the `SADD` was run once or twice.
pub after_any_sadd :
    (p : Str) (r r0 : Registry)
    → (r0 ≡ r) ⊎ (r0 ≡ (sadd p r).0)
    → (hashes_of (sadd p r0).0 p ≡ hashes_of r p) × (contains (sadd p r0).0.placements p ≡ true)
after_any_sadd p r r0 (inl e) = rw e (hashes_of-sadd p p r, contains-sadd p r)
after_any_sadd p r r0 (inr e) =
    (rw e (hashes_of-sadd p p (sadd p r).0 ∙ hashes_of-sadd p p r), contains-sadd p r0)
