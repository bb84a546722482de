-- ===== src/Naive/Amending.antt =====
-- `CancelOrder` and `ModifyOrder` keep the reference book well formed.
use order_book_matching_engi.Common.{
  ℕ, ◌+◌, ◌≡◌, subst, Bool, true, false, is_empty, All, some, Option-cases, Bool-cases, inl, inr,
  List, [], ◌∷◌, arith,
}
use order_book_matching_engi.Common.Int.{ltb_ℤ}
use order_book_matching_engi.Common.Words.{sub64}
use order_book_matching_engi.Common.Keyed
use order_book_matching_engi.Types.{Price, Order, OrderId, Quantity, Side, is_buy}
use order_book_matching_engi.Levels.{Levels, find}
use order_book_matching_engi.Levels.Laws.{
  All-find, upsert-All, upsert-IsSorted, erase-All, erase-IsSorted,
}
use order_book_matching_engi.Naive.{
  Node, PriceLevel, fresh_level, Index, Locator, OrderBook, on_side, with_side, find_node, deref,
  CancelResult,
}
use order_book_matching_engi.Naive.Matching.Quantities.{open_quantity}
use order_book_matching_engi.Naive.Sides.{AreResting, IsLevel, IsSide}
use order_book_matching_engi.Naive.Books.{IsBook, AreUncrossed-asks}
use order_book_matching_engi.Naive.Operations.{erase_node, shrink_level, remove_from_book}
use order_book_matching_engi.Naive.Amend.{cancel_order}

erase_node-open_quantity :
    (it : ℕ) (ns : List Node) (o : Order)
    → find_node it ns ≡ some o
    → open_quantity ns ≡ o.remaining_quantity + open_quantity (erase_node it ns)
unfolding find_node erase_node
erase_node-open_quantity it [] o e = cc
erase_node-open_quantity it (n ∷ ns) o e = ground (arith, erase_node-open_quantity it ns o)

erase_node-AreResting :
    (bids : Bool) (p : Price) (it : ℕ) (ns : List Node)
    → AreResting bids p ns
    → AreResting bids p (erase_node it ns)
unfolding erase_node
erase_node-AreResting bids p it [] h = tt
erase_node-AreResting bids p it (n ∷ ns) h = ground (arith, erase_node-AreResting bids p it ns h.1)

-- A level without one of its orders, if another is left.
erase_node-IsLevel :
    (bids : Bool) (p : Price) (l : PriceLevel) (it : ℕ) (o : Order)
    → IsLevel bids p l
    → find_node it l.orders ≡ some o
    → is_empty (erase_node it l.orders) ≡ false
    → IsLevel bids p (record l {
      total_quantity = sub64 l.total_quantity o.remaining_quantity;
      orders = erase_node it l.orders;
    })
erase_node-IsLevel bids p l it o h e f = record {
  filled = f;
  total = omega (arith, h.total, erase_node-open_quantity it l.orders o e);
  resting = erase_node-AreResting bids p it l.orders h.resting;
}

-- Taking an order out of its level keeps what holds of all keys, and the side well formed.
shrink_level-keys :
    (P : Price → Type 0) (bids : Bool) (p : Price) (l : PriceLevel) (it : ℕ) (q : Quantity)
    (ls : Levels PriceLevel)
    → find p ls ≡ some l
    → All (λ e. P e.0) ls
    → All (λ e. P e.0) (shrink_level bids p l it q ls)
unfolding shrink_level
shrink_level-keys P bids p l it q ls e h = elim (Bool-cases (is_empty (erase_node it l.orders))) [
  | inl t ↦ rw t (erase-All (λ k _. P k) p ls h)
  | inr t ↦ rw t (
      upsert-All (λ k _. P k) bids fresh_level _ p ls (All-find (λ k _. P k) p ls l h e) (λ _ k. k)
        h)
]

shrink_level-IsSide :
    (bids : Bool) (p : Price) (l : PriceLevel) (it : ℕ) (o : Order) (ls : Levels PriceLevel)
    → IsSide bids ls
    → find p ls ≡ some l
    → find_node it l.orders ≡ some o
    → IsSide bids (shrink_level bids p l it o.remaining_quantity ls)
unfolding shrink_level
shrink_level-IsSide bids p l it o ls h e f = elim (Bool-cases (is_empty (erase_node it l.orders))) [
  | inl t ↦ rw t (record {
    sorted = erase-IsSorted bids p ls h.sorted;
    levels = erase-All (IsLevel bids) p ls h.levels;
  })
  | inr t ↦
      let kept = erase_node-IsLevel bids p l it o (All-find (IsLevel bids) p ls l h.levels e) f t in
      rw t (record {
        sorted = upsert-IsSorted bids fresh_level _ p ls h.sorted;
        levels = upsert-All (IsLevel bids) bids fresh_level _ p ls kept (λ _ _. kept) h.levels;
      })
]

-- One side in the place of another that had the same prices and more.
pub with_side-IsBook :
    (b : OrderBook) (s : Side) (ls : Levels PriceLevel)
    → IsBook b
    → IsSide (is_buy s) ls
    → ((P : Price → Type 0) → All (λ e. P e.0) (on_side b s) → All (λ e. P e.0) ls)
    → IsBook (with_side b s ls)
with_side-IsBook b s ls h k f = elim (Bool-cases (is_buy s)) [
  | inl e ↦ rw e (record {
    bids = rw e at k;
    asks = h.asks;
    uncrossed = (rw e at f) (λ p. All (λ x. ltb_ℤ p x.0 ≡ true) b.asks) h.uncrossed;
  })
  | inr e ↦ rw e (record {
    bids = h.bids;
    asks = rw e at k;
    uncrossed = AreUncrossed-asks b.bids b.asks ls (rw e at f) h.uncrossed;
  })
]

pub on_side-IsSide : (b : OrderBook) (s : Side) → IsBook b → IsSide (is_buy s) (on_side b s)
on_side-IsSide b s h = elim (Bool-cases (is_buy s)) [ inl e ↦ rw e h.bids | inr e ↦ rw e h.asks ]

with_index-IsBook : (b : OrderBook) (i : Index) → IsBook b → IsBook (record b { index = i })
with_index-IsBook b i h = record { bids = h.bids; asks = h.asks; uncrossed = h.uncrossed }

pub remove_from_book-IsBook :
    (b b' : OrderBook) (loc : Locator) (id : OrderId)
    → IsBook b
    → remove_from_book b loc id ≡ some b'
    → IsBook b'
unfolding remove_from_book
remove_from_book-IsBook b b' loc id h e =
    elim (Option-cases (find loc.price (on_side b loc.side))) [
      | inl f ↦ let same : b ≡ b' = cc in subst IsBook same h
      | inr (l, f) ↦ elim (Option-cases (find_node loc.it l.orders)) [
        | inl g ↦ absurd cc
        | inr (o, g) ↦
            let ls =
              shrink_level (is_buy loc.side) loc.price l loc.it o.remaining_quantity
                (on_side b loc.side) in
            let k =
              with_side-IsBook b loc.side ls h
                (shrink_level-IsSide (is_buy loc.side) loc.price l loc.it o (on_side b loc.side)
                  (on_side-IsSide b loc.side h) f g)
                (λ P.
                  shrink_level-keys P (is_buy loc.side) loc.price l loc.it o.remaining_quantity
                    (on_side b loc.side) f) in
            let same : record (with_side b loc.side ls) { index = Keyed.erase id b.index } ≡ b' =
              cc in
            subst IsBook same (with_index-IsBook _ _ k)
      ]
    ]

-- A cancellation that does not run into a dangling iterator keeps the book well formed.
pub cancel_order-IsBook :
    (b b' : OrderBook) (id : OrderId) (r : CancelResult)
    → IsBook b
    → cancel_order b id ≡ some (r, b')
    → IsBook b'
unfolding cancel_order
cancel_order-IsBook b b' id r h e = elim (Option-cases (Keyed.find id b.index)) [
  | inl f ↦ let same : b ≡ b' = cc in subst IsBook same h
  | inr (loc, f) ↦ elim (Option-cases (deref b loc)) [
    | inl g ↦ absurd cc
    | inr (o, g) ↦ elim (Option-cases (remove_from_book b loc id)) [
      | inl k ↦ absurd cc
      | inr (c, k) ↦
          let same : c ≡ b' = cc in subst IsBook same (remove_from_book-IsBook b c loc id h k)
    ]
  ]
]
