-- ===== src/Fast/Spending.antt =====
-- What `Match` leaves of a side when it does not spend the incoming order: the side as it was, or
-- fewer nodes.
use order_book_matching_engi.Common.{
  ℕ, ◌+◌, ◌<◌, ◌≡◌, refl, ap, ◌==◌, Bool, true, false, not, ◌||◌, is_empty, length, Bool-cases, inl,
  inr, ◌⊎◌, All, [], ◌∷◌, arith,
}
use order_book_matching_engi.Types.{is_buy}
use order_book_matching_engi.Naive
use order_book_matching_engi.Naive.{Index}
use order_book_matching_engi.Naive.Matching
use order_book_matching_engi.Naive.Matching.{Incoming, Filled, match_orders}
use order_book_matching_engi.Naive.Matching.Quantities.{
  match_orders-exhausts, match_levels-remaining,
}
use order_book_matching_engi.Naive.Sides.{IsLevel}
use order_book_matching_engi.Naive.Books.{IsBook}
use order_book_matching_engi.Naive.Operations
use order_book_matching_engi.Naive.Operations.{matched_book}
use order_book_matching_engi.Fast.Cells.{Queue}
use order_book_matching_engi.Fast.Queues.{BookSide, nodes}
use order_book_matching_engi.Fast.Resized.{match_levels-nodes}

not_empty : (ns : Queue) → is_empty ns ≡ false → 0 < length ns
not_empty [] e = absurd cc
not_empty (n ∷ ns) e = omega arith

module _ (symbol : ℕ) (a : Incoming) where
  match_levels_spends :
      (bids : Bool) (ls : BookSide) (remaining : ℕ) (index : Index)
      → All (λ e. IsLevel bids e.0 e.1) ls
      → let m = Matching.match_levels symbol a ls remaining index in
        0 < m.remaining
        → (m ≡ record { levels = ls; remaining = remaining; index = index; trades = [] })
          ⊎ (nodes m.levels < nodes ls)
  unfolding Matching.match_levels
  match_levels_spends bids [] remaining index h r = inl refl
  match_levels_spends bids ((p, l) ∷ ls) remaining index h r =
      elim (Bool-cases (remaining == 0 || not (Matching.crosses a p))) [
        | inl z ↦ rw z (inl refl)
        | inr z ↦
            let f : Filled = match_orders symbol a l.orders l.total_quantity remaining index in
            let left : 0 < (Matching.match_levels symbol a ls f.remaining f.index).remaining =
              rw z at r in
            let filled = not_empty l.orders h.0.filled in
            let fewer = match_levels-nodes symbol a ls f.remaining f.index in
            let spent : 0 < f.remaining =
              omega (arith, left, match_levels-remaining symbol a ls f.remaining f.index) in
            rw z (elim (match_orders-exhausts symbol a l.orders l.total_quantity remaining index) [
              | inl e ↦ absurd (omega (arith, spent, e))
              | inr e ↦ rw e (inr (omega (arith, filled, fewer)))
            ])
      ]

-- A book that has to rest an order after trades has fewer nodes than before.
pub matched_book_spends :
    (b : Naive.OrderBook) (a : Incoming)
    → IsBook b
    → let m =
        Matching.match_levels b.symbol_id a (Operations.against b a.side) a.quantity b.index in
      0 < m.remaining
      → ((m ≡ record {
        levels = Operations.against b a.side;
        remaining = a.quantity;
        index = b.index;
        trades = [];
      })
          × (matched_book b a ≡ b))
        ⊎ (nodes (matched_book b a).bids + nodes (matched_book b a).asks
            < nodes b.bids + nodes b.asks)
unfolding matched_book
matched_book_spends b a k r = elim (Bool-cases (is_buy a.side)) [
  | inl e ↦
      let left : 0 < (Matching.match_levels b.symbol_id a b.asks a.quantity b.index).remaining =
        rw e at r in
      elim (match_levels_spends b.symbol_id a false b.asks a.quantity b.index k.asks.levels left) [
        | inl same ↦ rw e (
            inl (
              same,
              ap (λ (m : Matching.Matched). record b { asks = m.levels; index = m.index }) same,
            ))
        | inr fewer ↦ rw e (inr (omega (arith, fewer)))
      ]
  | inr e ↦
      let left : 0 < (Matching.match_levels b.symbol_id a b.bids a.quantity b.index).remaining =
        rw e at r in
      elim (match_levels_spends b.symbol_id a true b.bids a.quantity b.index k.bids.levels left) [
        | inl same ↦ rw e (
            inl (
              same,
              ap (λ (m : Matching.Matched). record b { bids = m.levels; index = m.index }) same,
            ))
        | inr fewer ↦ rw e (inr (omega (arith, fewer)))
      ]
]
