-- ===== src/Auction/Rank.antt =====
-- `ranksAhead` orders bids strictly and totally: by priority, then by price, then by id.
use mathlib.Core.Bool.{false≢true}
use adserver.Common.{◌+◌, ◌≡◌, sym, ◌∙◌, inl, inr, true, false, arith, Bool-cases}
use adserver.Common.Int.{ℤ, ◌≤ℤ◌, ◌<ℤ◌, pos_part, neg_part, eqb_ℤ, eq_of_parts}
use adserver.Common.Text.{str_lt_irrefl, str_lt_trans, str_lt, str_lt_connex}
use adserver.Types.Bid.{Bid}
use adserver.Auction.{ranks_ahead}

pub ranks_ahead_irrefl : (b : Bid) (p : ℤ) → ranks_ahead b p b p ≡ false
unfolding ranks_ahead
ranks_ahead_irrefl b p = ground (arith, str_lt_irrefl b.id)

infix 4 ◌≈◌
abbrev ◌≈◌ : ℤ → ℤ → Type 0
a ≈ b = pos_part a + neg_part b ≡ pos_part b + neg_part a

-- The three ways to outrank a bid.
pub data Outranks (a : Bid) (p : ℤ) (b : Bid) (q : ℤ) : Type 0 where
  by_priority : b.priority <ℤ a.priority → Outranks a p b q
  by_price : a.priority ≈ b.priority → q <ℤ p → Outranks a p b q
  by_id : a.priority ≈ b.priority → p ≈ q → str_lt a.id b.id ≡ true → Outranks a p b q

pub Outranks→ranks_ahead : {a b : Bid} {p q : ℤ} → Outranks a p b q → ranks_ahead a p b q ≡ true
unfolding ranks_ahead
Outranks→ranks_ahead (by_priority h) = ground arith
Outranks→ranks_ahead (by_price e h) = ground arith
Outranks→ranks_ahead (by_id e f h) = ground arith

pub ranks_ahead→Outranks : (a b : Bid) (p q : ℤ) → ranks_ahead a p b q ≡ true → Outranks a p b q
unfolding ranks_ahead
ranks_ahead→Outranks a b p q h = elim (Bool-cases (eqb_ℤ a.priority b.priority)) [
  | inr e ↦ by_priority (ground arith)
  | inl e ↦ elim (Bool-cases (eqb_ℤ p q)) [
    | inr f ↦ by_price (ground arith) (ground arith)
    | inl f ↦ by_id (ground arith) (ground arith) (ground arith)
  ]
]

Outranks-trans : {a b c : Bid} {p q r : ℤ} → Outranks a p b q → Outranks b q c r → Outranks a p c r
Outranks-trans (by_priority h) (by_priority k) = by_priority (omega arith)
Outranks-trans (by_priority h) (by_price e k) = by_priority (omega arith)
Outranks-trans (by_priority h) (by_id e f k) = by_priority (omega arith)
Outranks-trans (by_price d h) (by_priority k) = by_priority (omega arith)
Outranks-trans (by_price d h) (by_price e k) = by_price (omega arith) (omega arith)
Outranks-trans (by_price d h) (by_id e f k) = by_price (omega arith) (omega arith)
Outranks-trans (by_id d g h) (by_priority k) = by_priority (omega arith)
Outranks-trans (by_id d g h) (by_price e k) = by_price (omega arith) (omega arith)
Outranks-trans {a} {b} {c} (by_id d g h) (by_id e f k) =
    by_id (omega arith) (omega arith) (str_lt_trans a.id b.id c.id h k)

pub ranks_ahead_trans :
    (a b c : Bid) (p q r : ℤ)
    → ranks_ahead a p b q ≡ true
    → ranks_ahead b q c r ≡ true
    → ranks_ahead a p c r ≡ true
ranks_ahead_trans a b c p q r h k =
    Outranks→ranks_ahead
      (Outranks-trans (ranks_ahead→Outranks a b p q h) (ranks_ahead→Outranks b c q r k))

-- Bids that neither outranks have the same priority, price and id.
pub ranks_ahead_connex :
    (a b : Bid) (p q : ℤ)
    → ranks_ahead a p b q ≡ false
    → ranks_ahead b q a p ≡ false
    → (a.priority ≡ b.priority) × (p ≡ q) × (a.id ≡ b.id)
unfolding ranks_ahead
ranks_ahead_connex a b p q h k =
    ground (arith, eq_of_parts a.priority b.priority, eq_of_parts p q, str_lt_connex a.id b.id)

-- What does not outrank a bid does not outrank one that does.
pub not_ahead_trans :
    (x w o : Bid) (p q r : ℤ)
    → ranks_ahead x p w q ≡ false
    → ranks_ahead o r w q ≡ true
    → ranks_ahead x p o r ≡ false
not_ahead_trans x w o p q r h k = elim (Bool-cases (ranks_ahead x p o r)) [
  | inl e ↦ absurd (false≢true (sym h ∙ ranks_ahead_trans x o w p r q e k))
  | inr e ↦ e
]

-- At most one of two bids outranks the other.
pub ranks_ahead_asymm :
    (a b : Bid) (p q : ℤ) → ranks_ahead a p b q ≡ true → ranks_ahead b q a p ≡ false
ranks_ahead_asymm a b p q h = elim (Bool-cases (ranks_ahead b q a p)) [
  | inl e ↦ absurd (false≢true (sym (ranks_ahead_irrefl a p) ∙ ranks_ahead_trans a b a p q p h e))
  | inr e ↦ e
]

-- An outranked bid has at most the priority, and at the same priority at most the price.
pub not_ahead_bounds :
    (a b : Bid) (p q : ℤ)
    → ranks_ahead a p b q ≡ false
    → (a.priority ≤ℤ b.priority) × (eqb_ℤ a.priority b.priority ≡ true → p ≤ℤ q)
unfolding ranks_ahead
not_ahead_bounds a b p q h = ground arith

pub ahead_bounds :
    (a b : Bid) (p q : ℤ)
    → ranks_ahead a p b q ≡ true
    → (b.priority ≤ℤ a.priority) × (eqb_ℤ a.priority b.priority ≡ true → q ≤ℤ p)
unfolding ranks_ahead
ahead_bounds a b p q h = ground arith

-- Ranking behind a bid depends on its priority, price and id alone.
pub ranks_ahead_congr :
    (a b c : Bid) (p q r : ℤ)
    → (b.priority ≡ c.priority) × (q ≡ r) × (b.id ≡ c.id)
    → ranks_ahead a p b q ≡ ranks_ahead a p c r
unfolding ranks_ahead
ranks_ahead_congr a b c p q r h = rw (h.0, h.1, h.2)

pub not_ahead_chain :
    (a b c : Bid) (p q r : ℤ)
    → ranks_ahead a p b q ≡ false
    → ranks_ahead b q c r ≡ false
    → ranks_ahead a p c r ≡ false
not_ahead_chain a b c p q r h k = elim (Bool-cases (ranks_ahead c r b q)) [
  | inl f ↦ not_ahead_trans a b c p q r h f
  | inr f ↦ sym (ranks_ahead_congr a b c p q r (ranks_ahead_connex b c q r k f)) ∙ h
]
