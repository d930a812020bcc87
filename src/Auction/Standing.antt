-- ===== src/Auction/Standing.antt =====
-- The runner-up price at the end of an auction, by following who leads from offer to offer.
use adserver.Auction.Offers.{outcome, offers, consider_dynamic-append}
use mathlib.Core.List.{Perm, perm_middle}
use adserver.Auction.Winner.{
  is_candidate, IsFor, WonBy, consider-IsFor, Dominated, NotAheadOf, outcome-best,
}
use adserver.Common.{
  refl, List, ◌≡◌, All, true, none, false, ◌∷◌, arith, ◌⊎◌, All-mono, inl, inr, ◌++◌, ◌∙◌,
  Bool-cases, [],
}
use adserver.Auction.{consider, Accumulator, DynamicBid, consider_dynamic, new_accumulator}
use adserver.Common.Int.{ℤ, pos}
use adserver.Types.Bid.{AuctionRequest, Bid}
use mathlib.Core.List.{append-nil, perm_middle}
use mathlib.Core.Path.{subst}
use mathlib.Core.List.Perm
use adserver.Auction.RunnerUp.{
  IsRunnerUp, Lead, Contest, skip-Lead, not_candidate-rival, overtake-best, overtake-second,
  consider-Contest, Dominated-iff, keep-second,
}

module _ (request : AuctionRequest) (now : ℤ) where
  -- Nobody leads, or `o` leads and `others` are all other offers seen.
  data Standing (a : Accumulator) (seen : List DynamicBid) : Type 0 where
    idle :
        a.winner ≡ none
        → (rest : List DynamicBid) → All (λ x. is_candidate request now x ≡ false) rest
        → Perm seen rest
        → Standing a seen
    led :
        (o : DynamicBid) (others : List DynamicBid)
        → Lead request now a o others
        → Perm seen (o ∷ others)
        → Standing a seen

  Standing-perm :
      (a : Accumulator) (seen seen' : List DynamicBid)
      → Perm seen' seen
      → Standing a seen
      → Standing a seen'
  Standing-perm a seen seen' p (idle e rest unfit q) = idle e rest unfit (Perm.trans p q)
  Standing-perm a seen seen' p (led o others l q) = led o others l (Perm.trans p q)

  consider-skip :
      (a : Accumulator) (x : DynamicBid)
      → IsFor request now a
      → is_candidate request now x ≡ false
      → consider a x.bid x.bidder_id ≡ a
  unfolding consider
  consider-skip a x f c = ground arith

  consider-first :
      (a : Accumulator) (x : DynamicBid)
      → IsFor request now a
      → is_candidate request now x ≡ true
      → a.winner ≡ none
      → WonBy request now (consider a x.bid x.bidder_id) x
        × ((consider a x.bid x.bidder_id).runner_up_price ≡ pos 0)
  unfolding consider
  consider-first a x f c e = ground arith

  -- With no eligible offer before it, an eligible offer leads against the others.
  first-Lead :
      (a : Accumulator) (x : DynamicBid) (others : List DynamicBid)
      → All (λ y. is_candidate request now y ≡ false) others
      → WonBy request now a x × (a.runner_up_price ≡ pos 0)
      → Lead request now a x others
  first-Lead a x others h (won, zero_price) = record {
    won = won;
    best = All-mono _ _ (λ y n c. cc) others h;
    second = (
      All-mono _ _ (λ y n r. absurd (not_candidate-rival request now x.bid.priority y n r)) others
          h,
      inl zero_price,
    );
  }

  Contest-Lead :
      (a a' : Accumulator) (o x : DynamicBid) (others : List DynamicBid)
      → is_candidate request now x ≡ true
      → Lead request now a o others
      → Contest request now a a' o x
      → Lead request now a' x (o ∷ others) ⊎ Lead request now a' o (x ∷ others)
  Contest-Lead a a' o x others c l (inl (ahead, w, p, b, r)) = inl (record {
    won = (w, p, b, c);
    best = overtake-best request now a a' o x others l ahead (w, p, b, c);
    second = overtake-second request now a o x others a'.runner_up_price l ahead r;
  })
  Contest-Lead a a' o x others c l (inr (behind, w, p, b, r)) = inr (record {
    won = (w ∙ l.won.0, p ∙ l.won.1, b ∙ l.won.2, l.won.3);
    best = (
      λ _. (Dominated-iff request now a' x o.bid (w ∙ l.won.0)).1 (rw p behind),
      All-mono _ _
          (λ y best d.
            (Dominated-iff request now a' y o.bid (w ∙ l.won.0)).1
              (rw p ((Dominated-iff request now a y o.bid l.won.0).0 (best d))))
          others l.best,
    );
    second = keep-second request now a o x others a'.runner_up_price l.second c r;
  })

  consider-Standing :
      (a : Accumulator) (x : DynamicBid) (seen : List DynamicBid)
      → IsFor request now a
      → Standing a seen
      → Standing (consider a x.bid x.bidder_id) (x ∷ seen)
  consider-Standing a x seen f s = elim (Bool-cases (is_candidate request now x)) [
    | inr c ↦ rw (consider-skip a x f c) (skip s c)
    | inl c ↦ join s c
  ]
    where
      skip : Standing a seen → is_candidate request now x ≡ false → Standing a (x ∷ seen)
      skip (idle e rest unfit q) c = idle e (x ∷ rest) (c, unfit) (Perm.cons x q)
      skip (led o others l q) c =
          led o (x ∷ others) (skip-Lead request now a o x others c l)
            (Perm.trans (Perm.cons x q) (Perm.swap o x others))

      join :
          Standing a seen
          → is_candidate request now x ≡ true
          → Standing (consider a x.bid x.bidder_id) (x ∷ seen)
      join (idle e rest unfit q) c =
          led x rest
            (first-Lead (consider a x.bid x.bidder_id) x rest unfit (consider-first a x f c e))
            (Perm.cons x q)
      join (led o others l q) c =
          elim (Contest-Lead a (consider a x.bid x.bidder_id) o x others c l
            (consider-Contest request now a o x f c l.won.0)) [
              | inl new ↦ led x (o ∷ others) new (Perm.cons x q)
              | inr old ↦ led o (x ∷ others) old (Perm.trans (Perm.cons x q) (Perm.swap o x others))
            ]

  loop-Standing :
      (a : Accumulator) (xs seen : List DynamicBid)
      → IsFor request now a
      → Standing a seen
      → Standing (consider_dynamic a xs) (xs ++ seen)
  unfolding consider_dynamic
  loop-Standing a [] seen f s = s
  loop-Standing a (x ∷ xs) seen f s =
      Standing-perm (consider_dynamic (consider a x.bid x.bidder_id) xs) (xs ++ x ∷ seen)
        (x ∷ (xs ++ seen)) (Perm.symm (perm_middle xs seen))
        (loop-Standing (consider a x.bid x.bidder_id) xs (x ∷ seen)
          (consider-IsFor request now a x f) (consider-Standing a x seen f s))

  -- Either no offer is eligible and nobody wins, or the offers are, in some order, the winning one
  -- and the others, and the runner-up price at the end is the best effective price among the
  -- eligible others of the winner's priority, or 0 if they are none or all below it.
  pub outcome-runner_up :
      (bids : List Bid) (dynamic : List DynamicBid)
      → let a = outcome request now bids dynamic in
        ((a.winner ≡ none) × All (λ o. is_candidate request now o ≡ false) (offers bids dynamic))
        ⊎ ((o : DynamicBid) × (others : List DynamicBid) × Perm (offers bids dynamic) (o ∷ others)
            × WonBy request now a o
            × IsRunnerUp request now o.bid.priority a.runner_up_price others)
  outcome-runner_up bids dynamic = conclude standing
    where
      a : Accumulator
      a = outcome request now bids dynamic

      standing : Standing a (offers bids dynamic)
      standing =
          subst (λ t. Standing t (offers bids dynamic))
            (consider_dynamic-append (new_accumulator request now) bids dynamic)
            (subst (Standing (consider_dynamic (new_accumulator request now) (offers bids dynamic)))
              (append-nil (offers bids dynamic))
              (loop-Standing (new_accumulator request now) (offers bids dynamic) [] (refl, refl)
                (idle refl [] tt Perm.rfl)))

      unfit :
          a.winner ≡ none
          → (o : DynamicBid) → (is_candidate request now o ≡ true → Dominated a o)
          → is_candidate request now o ≡ false
      unfit e o best = elim (Bool-cases (is_candidate request now o)) [
        | inl c ↦ absurd (subst (λ w. NotAheadOf o w a.winner_price) e (best c))
        | inr c ↦ c
      ]

      conclude :
          Standing a (offers bids dynamic)
          → ((a.winner ≡ none)
              × All (λ o. is_candidate request now o ≡ false) (offers bids dynamic))
            ⊎ ((o : DynamicBid) × (others : List DynamicBid) × Perm
                  (offers bids dynamic)
                  (o ∷ others)
                × WonBy request now a o
                × IsRunnerUp request now o.bid.priority a.runner_up_price others)
      conclude (idle e rest h q) = inl (
        e,
        All-mono _ _ (unfit e) (offers bids dynamic) (outcome-best request now bids dynamic).0,
      )
      conclude (led o others l q) = inr (o, others, q, l.won, l.second)
