-- ===== src/Naive/Books.antt =====
-- When the whole reference book is well formed: both sides are, and they do not cross.
-- `AddOrder` keeps it so.
use order_book_matching_engi.Common.{
  ℕ, ◌%◌, ◌^◌, ◌<◌, ◌≡◌, refl, Bool, true, false, is_empty, All, All-map, List, [], ◌∷◌, ◌++◌,
  arith, Bool-cases, Option-cases, inl, inr,
}
use order_book_matching_engi.Common.Int.{ltb_ℤ}
use order_book_matching_engi.Common.Words.{IsU64}
use order_book_matching_engi.Types.{Price, Order, is_buy, is_limit}
use order_book_matching_engi.Levels.{Levels, upsert}
use order_book_matching_engi.Levels.Laws.{upsert-All, upsert-IsSorted}
use order_book_matching_engi.Naive.{Node, PriceLevel, fresh_level, OrderBook, empty_book}
use order_book_matching_engi.Naive.Matching.{Incoming, match_levels, crosses, price_crosses}
use order_book_matching_engi.Naive.Matching.Quantities.{open_quantity, match_levels-remaining}
use order_book_matching_engi.Naive.Sides.{
  IsResting, AreResting, IsLevel, IsSide, match_levels-IsSide, match_levels-keys,
  match_levels-blocked,
}
use order_book_matching_engi.Naive.Placing.{open_quantity-append}
use order_book_matching_engi.Naive.Operations.{
  against, can_rest, push_order, resting_order, reject_of, matched_book, accept_order, add_order,
  insert_resting,
}

-- Every bid is below every ask.
abbrev pub AreUncrossed : Levels PriceLevel → Levels PriceLevel → Type 0
AreUncrossed bids asks = All (λ e. All (λ f. ltb_ℤ e.0 f.0 ≡ true) asks) bids

pub record IsBook (b : OrderBook) : Type 0 where
  pub bids : IsSide true b.bids
  pub asks : IsSide false b.asks
  pub uncrossed : AreUncrossed b.bids b.asks

pub empty_book-IsBook : (symbol : ℕ) → IsBook (empty_book symbol)
unfolding empty_book
empty_book-IsBook symbol = record {
  bids = record { sorted = tt; levels = tt };
  asks = record { sorted = tt; levels = tt };
  uncrossed = tt;
}

AreResting-append :
    (bids : Bool) (p : Price) (ns : List Node) (n : Node)
    → AreResting bids p ns
    → IsResting bids p n.order
    → AreResting bids p (ns ++ (n ∷ []))
AreResting-append bids p [] n h r = (r, tt)
AreResting-append bids p (m ∷ ns) n h r = (h.0, AreResting-append bids p ns n h.1 r)

is_empty-append : (ns : List Node) (n : Node) → is_empty (ns ++ (n ∷ [])) ≡ false
is_empty-append [] n = refl
is_empty-append (m ∷ ns) n = refl

push_order-IsLevel :
    (bids : Bool) (p : Price) (n : Node) (l : PriceLevel)
    → l.total_quantity ≡ open_quantity l.orders % 2 ^ 64
    → AreResting bids p l.orders
    → IsResting bids p n.order
    → IsLevel bids p (push_order p n l)
push_order-IsLevel bids p n l e h r = record {
  filled = is_empty-append l.orders n;
  total = omega (arith, open_quantity-append l.orders n);
  resting = AreResting-append bids p l.orders n h r;
}

-- An order that comes to rest keeps its side well formed.
pub upsert-IsSide :
    (bids : Bool) (p : Price) (n : Node) (ls : Levels PriceLevel)
    → IsSide bids ls
    → IsResting bids p n.order
    → IsSide bids (upsert bids fresh_level (push_order p n) p ls)
upsert-IsSide bids p n ls h r = record {
  sorted = upsert-IsSorted bids fresh_level (push_order p n) p ls h.sorted;
  levels =
      upsert-All (IsLevel bids) bids fresh_level (push_order p n) p ls
        (push_order-IsLevel bids p n fresh_level (omega arith) tt r)
        (λ v k. push_order-IsLevel bids p n v k.total k.resting r) h.levels;
}

-- Of two sides, the keys of one in the other's place.
pub AreUncrossed-asks :
    (bids asks asks' : Levels PriceLevel)
    → ((P : Price → Type 0) → All (λ e. P e.0) asks → All (λ e. P e.0) asks')
    → AreUncrossed bids asks
    → AreUncrossed bids asks'
AreUncrossed-asks [] asks asks' k h = tt
AreUncrossed-asks ((p, l) ∷ bids) asks asks' k h =
    (k (λ q. ltb_ℤ p q ≡ true) h.0, AreUncrossed-asks bids asks asks' k h.1)

-- A limit price that crosses no ask lies below every ask; one that crosses no bid, above.
blocked_buy :
    (a : Incoming) (p : Price)
    → is_buy a.side ≡ true
    → is_limit a.type ≡ true
    → crosses a p ≡ false
    → ltb_ℤ a.price p ≡ true
unfolding price_crosses
blocked_buy a p s t c = ground arith

blocked_sell :
    (a : Incoming) (p : Price)
    → is_buy a.side ≡ false
    → is_limit a.type ≡ true
    → crosses a p ≡ false
    → ltb_ℤ p a.price ≡ true
unfolding price_crosses
blocked_sell a p s t c = ground arith

AreUncrossed-upsert :
    (bids asks : Levels PriceLevel) (p : Price) (n : Node)
    → All (λ e. ltb_ℤ e.0 p ≡ true) bids
    → AreUncrossed bids asks
    → AreUncrossed bids (upsert false fresh_level (push_order p n) p asks)
AreUncrossed-upsert [] asks p n k h = tt
AreUncrossed-upsert ((q, l) ∷ bids) asks p n k h = (
  upsert-All (λ r _. ltb_ℤ q r ≡ true) false fresh_level (push_order p n) p asks k.0 (λ _ c. c) h.0,
  AreUncrossed-upsert bids asks p n k.1 h.1,
)

-- The order's price crosses nothing on the other side.
pub record IsClear (b : OrderBook) (o : Order) : Type 0 where
  pub below_asks : is_buy o.side ≡ true → All (λ e. ltb_ℤ o.price e.0 ≡ true) b.asks
  pub above_bids : is_buy o.side ≡ false → All (λ e. ltb_ℤ e.0 o.price ≡ true) b.bids

-- `InsertResting`, and with it `RestoreOrder`, keeps a book well formed that the order does not cross.
pub insert_resting-IsBook :
    (b : OrderBook) (o : Order)
    → IsBook b
    → IsResting (is_buy o.side) o.price o
    → IsClear b o
    → IsBook (insert_resting b o)
unfolding insert_resting
insert_resting-IsBook b o h r c = elim (Bool-cases (is_buy o.side)) [
  | inl s ↦ rw s (record {
    bids = upsert-IsSide true o.price node b.bids h.bids (rw s at r);
    asks = h.asks;
    uncrossed =
        upsert-All (λ p _. All (λ f. ltb_ℤ p f.0 ≡ true) b.asks) true fresh_level
          (push_order o.price node) o.price b.bids (c.below_asks s) (λ _ k. k) h.uncrossed;
  })
  | inr s ↦ rw s (record {
    bids = h.bids;
    asks = upsert-IsSide false o.price node b.asks h.asks (rw s at r);
    uncrossed = AreUncrossed-upsert b.bids b.asks o.price node (c.above_bids s) h.uncrossed;
  })
]
  where
    node : Node
    node = record { it = b.next_node; order = o }

module _ (b : OrderBook) (a : Incoming) (h : IsBook b) where
  -- Matching keeps the book well formed.
  pub matched_book-IsBook : IsBook (matched_book b a)
  unfolding matched_book
  matched_book-IsBook = elim (Bool-cases (is_buy a.side)) [
    | inl s ↦ rw s (record {
      bids = h.bids;
      asks = match_levels-IsSide b.symbol_id a false b.asks a.quantity b.index h.asks;
      uncrossed =
          AreUncrossed-asks b.bids b.asks _
            (λ P. match_levels-keys b.symbol_id a P b.asks a.quantity b.index) h.uncrossed;
    })
    | inr s ↦ rw s (record {
      bids = match_levels-IsSide b.symbol_id a true b.bids a.quantity b.index h.bids;
      asks = h.asks;
      uncrossed =
          match_levels-keys b.symbol_id a (λ q. All (λ f. ltb_ℤ q f.0 ≡ true) b.asks) b.bids
            a.quantity b.index h.uncrossed;
    })
  ]

  -- What the order leaves unfilled crosses nothing that is left.
  matched_book-blocked :
      0 < (match_levels b.symbol_id a (against b a.side) a.quantity b.index).remaining
      → All
          (λ e. crosses a e.0 ≡ false)
          (match_levels b.symbol_id a (against b a.side) a.quantity b.index).levels
  matched_book-blocked r = elim (Bool-cases (is_buy a.side)) [
    | inl s ↦ match_levels-blocked b.symbol_id a _ a.quantity b.index (rw s h.asks.sorted) r
    | inr s ↦ match_levels-blocked b.symbol_id a _ a.quantity b.index (rw s h.bids.sorted) r
  ]

  resting_order-IsClear :
      (m : ℕ)
      → 0 < m
      → m ≡ (match_levels b.symbol_id a (against b a.side) a.quantity b.index).remaining
      → is_limit a.type ≡ true
      → IsClear (matched_book b a) (resting_order b a m)
  unfolding matched_book
  resting_order-IsClear m r e t = record {
    below_asks = λ s.
        rw s (
          All-map _ _ _ (λ x. blocked_buy a x.0 s t) (rw s at (matched_book-blocked (rw (← e) r))));
    above_bids = λ s.
        rw s (
          All-map _ _ _ (λ x. blocked_sell a x.0 s t)
            (rw s at (matched_book-blocked (rw (← e) r))));
  }

  accept_order-IsBook : IsU64 a.quantity → IsBook (accept_order b a).1
  unfolding accept_order
  accept_order-IsBook u =
      let m = match_levels b.symbol_id a (against b a.side) a.quantity b.index in
      elim (Bool-cases (can_rest a m.remaining)) [
        | inl k ↦ rw k (
            insert_resting-IsBook (matched_book b a) (resting_order b a m.remaining)
              matched_book-IsBook
              (record {
                priced = refl;
                sided = refl;
                unfilled = ground arith;
                within = omega (
                  arith,
                  match_levels-remaining b.symbol_id a (against b a.side) a.quantity b.index,
                );
                sized = u;
              })
              (resting_order-IsClear m.remaining (ground arith) refl (ground arith)))
        | inr k ↦ rw k matched_book-IsBook
      ]

-- Every order that `AddOrder` is given leaves the book well formed and uncrossed.
pub add_order-IsBook :
    (b : OrderBook) (a : Incoming) → IsBook b → IsU64 a.quantity → IsBook (add_order b a).1
unfolding add_order
add_order-IsBook b a h u = elim (Option-cases (reject_of b a)) [
  | inl e ↦ rw (e, add_order) (accept_order-IsBook b a h u)
  | inr (reason, e) ↦ rw (e, add_order) h
]
