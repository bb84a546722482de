-- ===== src/Fast/Image.antt =====
-- The pooled book of a reference book whose addresses are slots of the pool, and what its maps hold.
use order_book_matching_engi.Common.{
  ℕ, ◌+◌, ◌≡◌, refl, Bool, true, false, is_empty, Bool-cases, inl, inr, none, some, List, [], ◌∷◌,
  arith,
}
use order_book_matching_engi.Common.Int.{eqb_ℤ}
use order_book_matching_engi.Common.Words.{add64}
use order_book_matching_engi.Common.Keyed
use order_book_matching_engi.Types.{Price, OrderId, Quantity}
use order_book_matching_engi.Levels
use order_book_matching_engi.Levels.Laws.{IsSorted, find_before, precedes-All}
use order_book_matching_engi.Pool.FreeList.{IsPool}
use order_book_matching_engi.Naive
use order_book_matching_engi.Naive.{Index, Locator}
use order_book_matching_engi.Naive.Matching
use order_book_matching_engi.Naive.Matching.{Incoming}
use order_book_matching_engi.Naive.Operations
use order_book_matching_engi.Fast
use order_book_matching_engi.Fast.{NodePool}
use order_book_matching_engi.Fast.Filling
use order_book_matching_engi.Fast.Book
use order_book_matching_engi.Fast.Cells.{level_of}
use order_book_matching_engi.Fast.Rounds.{links}
use order_book_matching_engi.Fast.Queues.{BookSide, levels_of, in_levels, nodes, Queues}

abbrev pub book_of : Naive.OrderBook → NodePool → Fast.OrderBook
book_of b pool = record {
  symbol_id = b.symbol_id;
  bids = levels_of b.bids;
  asks = levels_of b.asks;
  index = links b.index;
  pool = pool;
}

-- The pool whose live slots are the nodes of the two sides, with the free list `ps`.
pub record IsHeld (bids asks : BookSide) (pool : NodePool) (ps : List ℕ) : Type 0 where
  pub is_pool : IsPool pool ps
  pub bids_held : Queues pool.slots bids
  pub asks_held : Queues pool.slots asks
  pub apart : (q : ℕ) → in_levels q bids ≡ true → in_levels q asks ≡ false
  pub counted : pool.in_use ≡ nodes bids + nodes asks

pub find-levels_of :
    (p : Price) (ls : BookSide)
    → Levels.find p (levels_of ls)
      ≡ elim (Levels.find p ls) [ none ↦ none | some l ↦ some (level_of l) ]
unfolding Levels.find
find-levels_of p [] = refl
find-levels_of p ((q, l) ∷ ls) = ground (arith, find-levels_of p ls)

pub erase-levels_of :
    (p : Price) (ls : BookSide) → Levels.erase p (levels_of ls) ≡ levels_of (Levels.erase p ls)
unfolding Levels.erase
erase-levels_of p [] = refl
erase-levels_of p ((q, l) ∷ ls) = ground (arith, erase-levels_of p ls)

pub find-links :
    (id : OrderId) (m : Index)
    → Keyed.find id (links m) ≡ elim (Keyed.find id m) [ none ↦ none | some loc ↦ some loc.it ]
unfolding Keyed.find
find-links id [] = refl
find-links id ((j, loc) ∷ m) = ground (arith, find-links id m)

pub insert-links :
    (id : OrderId) (loc : Locator) (m : Index)
    → Keyed.insert id loc.it (links m) ≡ links (Keyed.insert id loc m)
unfolding Keyed.insert
insert-links id loc [] = refl
insert-links id loc ((j, k) ∷ m) = ground (arith, insert-links id loc m)

is_empty-levels_of : (ls : BookSide) → is_empty (levels_of ls) ≡ is_empty ls
is_empty-levels_of [] = refl
is_empty-levels_of ((p, l) ∷ ls) = refl

-- An update of the level of a price, given as its new value.
pub upsert-levels_of :
    (bids : Bool) (p : Price) (f : Naive.PriceLevel → Naive.PriceLevel) (ls : BookSide)
    → IsSorted bids ls
    → Levels.upsert bids Fast.fresh_level
        (λ _. level_of (f (elim (Levels.find p ls) [ none ↦ Naive.fresh_level | some l ↦ l ])))
        p
        (levels_of ls)
      ≡ levels_of (Levels.upsert bids Naive.fresh_level f p ls)
unfolding Levels.upsert Levels.find
upsert-levels_of bids p f [] h = refl
upsert-levels_of bids p f ((q, l) ∷ ls) h = elim (Bool-cases (eqb_ℤ q p)) [
  | inl e ↦ ground arith
  | inr e ↦ elim (Bool-cases (Levels.precedes bids p q)) [
    | inl t ↦ ground (arith, find_before bids p ls (precedes-All bids p q ls t h.0))
    | inr t ↦ ground (arith, upsert-levels_of bids p f ls h.1)
  ]
]

available_from-levels_of :
    (a : Incoming) (ls : BookSide) (total : Quantity)
    → Filling.available_from a (levels_of ls) total ≡ Matching.available_from a ls total
unfolding Filling.available_from Matching.available_from Filling.price_crosses
    Matching.price_crosses
available_from-levels_of a [] total = refl
available_from-levels_of a ((p, l) ∷ ls) total =
    ground (arith, available_from-levels_of a ls (add64 total l.total_quantity))

pub has_order-book_of :
    (b : Naive.OrderBook) (pool : NodePool) (id : OrderId)
    → Fast.has_order (book_of b pool) id ≡ Naive.has_order b id
unfolding Fast.has_order Naive.has_order
has_order-book_of b pool id = ground (arith, find-links id b.index)

-- The pooled book refuses what the reference book refuses.
pub reject_of-book_of :
    (b : Naive.OrderBook) (pool : NodePool) (a : Incoming)
    → Book.reject_of (book_of b pool) a ≡ Operations.reject_of b a
unfolding Book.reject_of Operations.reject_of
reject_of-book_of b pool a = ground (
  arith,
  has_order-book_of b pool a.id,
  is_empty-levels_of b.bids,
  is_empty-levels_of b.asks,
  available_from-levels_of a b.bids 0,
  available_from-levels_of a b.asks 0,
)
