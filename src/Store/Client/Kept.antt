-- ===== src/Store/Client/Kept.antt =====
-- What the writes of the registry's client keep of the hashes of every placement, whichever attempts fail
-- and whichever answers are lost, if their scripts keep it.
use adserver.Common.Assoc.{load-store}
use adserver.Common.Text.{Str, contains, str_eq}
use adserver.Common.{inl, inr, some, none, Option, Bool-cases}
use adserver.Store.Client.{
  fails, lost, answers, applied, Registry, or_again, hashes_of, attempt, retry_topology, publish,
  Attempt, write, sadd, eval_script, Link, after_sadd, announced, after_script, hashes_at,
}
use adserver.Store.{applied, unchanged, refused, Hashes, Reply}

-- What a command keeps, a retried one keeps.
module _ {A : Type 0} (Q : Registry → Type 0) (operation : Registry → Registry × A)
    (keeps : (r : Registry) → Q r → Q (operation r).0) where
  attempt-keeps : (a : Attempt) (r : Registry) → Q r → Q (attempt a operation r).0
  unfolding attempt
  attempt-keeps fails r q = q
  attempt-keeps lost r q = keeps r q
  attempt-keeps answers r q = keeps r q

  or_again-keeps :
      (link : Link) (r : Registry) (o : Option A) → Q r → Q (or_again link operation r o).0
  unfolding or_again
  or_again-keeps link r (some a) q = q
  or_again-keeps link r none q = elim (Bool-cases link.is_cluster) [
    | inl t ↦ rw t (attempt-keeps link.again r q)
    | inr t ↦ rw t q
  ]

  retry_topology-keeps : (link : Link) (r : Registry) → Q r → Q (retry_topology link operation r).0
  unfolding retry_topology
  retry_topology-keeps link r q =
      or_again-keeps link (attempt link.first operation r).0 (attempt link.first operation r).1
        (attempt-keeps link.first r q)

-- The hashes of every placement.
abbrev pub AtAll : (Hashes → Type 0) → Registry → Type 0
AtAll P r = (placement : Str) → P (hashes_of r placement)

module _ (P : Hashes → Type 0) (placement : Str) (script : Hashes → Hashes × Reply)
    (keeps : (h : Hashes) → P h → P (script h).0) where
  sadd-AtAll : (r : Registry) → AtAll P r → AtAll P (sadd placement r).0
  unfolding sadd hashes_of
  sadd-AtAll r q other = elim (Bool-cases (contains r.placements placement)) [
    | inl t ↦ rw t (q other)
    | inr t ↦ rw t (q other)
  ]

  publish-AtAll : (r : Registry) → AtAll P r → AtAll P (publish placement r).0
  unfolding publish hashes_of
  publish-AtAll r q other = q other

  eval_script-AtAll : (r : Registry) → AtAll P r → AtAll P (eval_script placement script r).0
  unfolding eval_script hashes_of hashes_at
  eval_script-AtAll r q other = elim (Bool-cases (str_eq placement other)) [
    | inl t ↦
        rw (load-store placement other (script (hashes_of r placement)).0 r.hashes, t)
          (keeps (hashes_of r placement) (q placement))
    | inr t ↦
        rw (load-store placement other (script (hashes_of r placement)).0 r.hashes, t) (q other)
  ]

  announced-AtAll : (x : Registry × Option (Unit {0})) → AtAll P x.0 → AtAll P (announced x).0
  unfolding announced
  announced-AtAll (r, none) q = q
  announced-AtAll (r, some u) q = q

  after_script-AtAll :
      (link : Link) (r : Registry) (o : Option Reply)
      → AtAll P r
      → AtAll P (after_script link placement (r, o)).0
  unfolding after_script
  after_script-AtAll link r none q = q
  after_script-AtAll link r (some refused) q = q
  after_script-AtAll link r (some applied) q =
      announced-AtAll _ (retry_topology-keeps (AtAll P) (publish placement) publish-AtAll link r q)
  after_script-AtAll link r (some unchanged) q =
      announced-AtAll _ (retry_topology-keeps (AtAll P) (publish placement) publish-AtAll link r q)

  after_sadd-AtAll :
      (eval_link publish_link : Link) (r : Registry) (o : Option (Unit {0}))
      → AtAll P r
      → AtAll P (after_sadd eval_link publish_link placement script (r, o)).0
  unfolding after_sadd
  after_sadd-AtAll eval_link publish_link r none q = q
  after_sadd-AtAll eval_link publish_link r (some u) q = after_script-AtAll publish_link _ _ (
      retry_topology-keeps (AtAll P) (eval_script placement script) eval_script-AtAll eval_link r q)

  pub write-AtAll :
      (sadd_link eval_link publish_link : Link) (r : Registry)
      → AtAll P r
      → AtAll P (write sadd_link eval_link publish_link placement script r).0
  unfolding write
  write-AtAll sadd_link eval_link publish_link r q =
      after_sadd-AtAll eval_link publish_link _ _
        (retry_topology-keeps (AtAll P) (sadd placement) sadd-AtAll sadd_link r q)
