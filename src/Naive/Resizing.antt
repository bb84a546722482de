-- ===== src/Naive/Resizing.antt =====
-- `ModifyOrder` keeps the reference book well formed.
use order_book_matching_engi.Common.{
  ℕ, ◌+◌, ◌-◌, ◌≤◌, ◌<◌, ◌≡◌, subst, Bool, false, ◌&&◌, ◌==◌, is_empty, All, leb, some,
  Option-cases, Bool-cases, inl, inr, List, [], ◌∷◌, arith,
}
use order_book_matching_engi.Common.Int.{ℤ, leb_ℤ, eqb_ℤ}
use order_book_matching_engi.Common.Words.{IsU64, sub64}
use order_book_matching_engi.Common.Keyed
use order_book_matching_engi.Types.{Price, Order, OrderId, Quantity, is_buy}
use order_book_matching_engi.Levels.{Levels, find, upsert}
use order_book_matching_engi.Levels.Laws.{All-find, upsert-All, upsert-IsSorted, upsert-All_found}
use order_book_matching_engi.Naive.{
  Node, PriceLevel, fresh_level, Locator, OrderBook, on_side, find_node, deref, ModifyResult,
}
use order_book_matching_engi.Naive.Matching.Quantities.{open_quantity}
use order_book_matching_engi.Naive.Sides.{IsResting, AreResting, IsLevel, IsSide}
use order_book_matching_engi.Naive.Books.{IsBook, add_order-IsBook}
use order_book_matching_engi.Naive.Operations.{remove_from_book, add_order}
use order_book_matching_engi.Naive.Amend.{
  resize_node, amend_in_place, replacement, modify_found, modify_order,
}
use order_book_matching_engi.Naive.Amending.{
  with_side-IsBook, on_side-IsSide, remove_from_book-IsBook,
}

resize_node-open_quantity :
    (it : ℕ) (new_quantity q : Quantity) (ns : List Node) (o : Order)
    → find_node it ns ≡ some o
    → open_quantity ns + new_quantity
      ≡ open_quantity (resize_node it new_quantity q ns) + o.remaining_quantity
unfolding find_node resize_node
resize_node-open_quantity it new_quantity q [] o e = cc
resize_node-open_quantity it new_quantity q (n ∷ ns) o e =
    ground (arith, resize_node-open_quantity it new_quantity q ns o)

resize_node-filled :
    (it : ℕ) (r q : Quantity) (ns : List Node)
    → is_empty ns ≡ false
    → is_empty (resize_node it r q ns) ≡ false
unfolding resize_node
resize_node-filled it r q [] h = h
resize_node-filled it r q (n ∷ ns) h = ground arith

-- The order at `it` smaller, and never of more open quantity than its size.
resize_node-AreResting :
    (bids : Bool) (p : Price) (it : ℕ) (r q : Quantity) (ns : List Node)
    → 0 < r
    → r ≤ q
    → IsU64 q
    → AreResting bids p ns
    → AreResting bids p (resize_node it r q ns)
unfolding resize_node
resize_node-AreResting bids p it r q [] f g u h = tt
resize_node-AreResting bids p it r q (n ∷ ns) f g u h =
    ground (arith, resize_node-AreResting bids p it r q ns f g u h.1)

pub find_node-IsResting :
    (bids : Bool) (p : Price) (it : ℕ) (ns : List Node) (o : Order)
    → find_node it ns ≡ some o
    → AreResting bids p ns
    → IsResting bids p o
unfolding find_node
find_node-IsResting bids p it [] o e h = absurd cc
find_node-IsResting bids p it (n ∷ ns) o e h = elim (Bool-cases (n.it == it)) [
  | inl t ↦ let same : n.order ≡ o = cc (rw t at e) in subst (IsResting bids p) same h.0
  | inr t ↦ find_node-IsResting bids p it ns o (rw t at e) h.1
]

module _ (bids : Bool) (p : Price) (it : ℕ) (o : Order) (new_quantity : Quantity) where
  -- The level after an amendment in place.
  resize_level : PriceLevel → PriceLevel
  resize_level l =
      let delta = o.remaining_quantity - new_quantity in
      record l {
        total_quantity = sub64 l.total_quantity delta;
        orders = resize_node it new_quantity (sub64 o.quantity delta) l.orders;
      }

  resize_level-IsLevel :
      (l : PriceLevel)
      → 0 < new_quantity
      → new_quantity ≤ o.remaining_quantity
      → IsLevel bids p l
      → find_node it l.orders ≡ some o
      → IsLevel bids p (resize_level l)
  unfolding resize_level
  resize_level-IsLevel l f g h e =
      let delta = o.remaining_quantity - new_quantity in
      let r = find_node-IsResting bids p it l.orders o e h.resting in
      record {
        filled = resize_node-filled it new_quantity (sub64 o.quantity delta) l.orders h.filled;
        total = omega (
          arith,
          h.total,
          resize_node-open_quantity it new_quantity (sub64 o.quantity delta) l.orders o e,
        );
        resting =
            resize_node-AreResting bids p it new_quantity (sub64 o.quantity delta) l.orders f
              (omega (arith, r.within, r.sized)) (omega (arith, r.within, r.sized)) h.resting;
      }

  resize_level-IsSide :
      (ls : Levels PriceLevel) (l : PriceLevel)
      → 0 < new_quantity
      → new_quantity ≤ o.remaining_quantity
      → IsSide bids ls
      → find p ls ≡ some l
      → find_node it l.orders ≡ some o
      → IsSide bids (upsert bids fresh_level resize_level p ls)
  resize_level-IsSide ls l f g h e k = record {
    sorted = upsert-IsSorted bids fresh_level resize_level p ls h.sorted;
    levels =
        upsert-All_found (IsLevel bids) bids fresh_level resize_level p ls l h.sorted e
          (resize_level-IsLevel l f g (All-find (IsLevel bids) p ls l h.levels e) k) h.levels;
  }

  resize_level-keys :
      (P : Price → Type 0) (ls : Levels PriceLevel) (l : PriceLevel)
      → find p ls ≡ some l
      → All (λ e. P e.0) ls
      → All (λ e. P e.0) (upsert bids fresh_level resize_level p ls)
  resize_level-keys P ls l e h =
      upsert-All (λ k _. P k) bids fresh_level resize_level p ls (All-find (λ k _. P k) p ls l h e)
        (λ _ k. k) h

amend_in_place-IsBook :
    (b : OrderBook) (loc : Locator) (o : Order) (new_quantity : Quantity)
    → IsBook b
    → deref b loc ≡ some o
    → 0 < new_quantity
    → new_quantity ≤ o.remaining_quantity
    → IsBook (amend_in_place b loc o new_quantity)
unfolding amend_in_place deref resize_level
amend_in_place-IsBook b loc o new_quantity h e f g =
    elim (Option-cases (find loc.price (on_side b loc.side))) [
      | inl t ↦ absurd cc
      | inr (l, t) ↦
          let there : find_node loc.it l.orders ≡ some o = cc in
          with_side-IsBook b loc.side _ h
            (resize_level-IsSide (is_buy loc.side) loc.price loc.it o new_quantity
              (on_side b loc.side) l f g (on_side-IsSide b loc.side h) t there)
            (λ P.
              resize_level-keys (is_buy loc.side) loc.price loc.it o new_quantity P
                (on_side b loc.side) l t)
    ]

modify_found-IsBook :
    (b b' : OrderBook) (id : OrderId) (loc : Locator) (o : Order) (new_price : Price)
    (new_quantity seq ts : ℕ) (r : ModifyResult)
    → IsBook b
    → IsU64 new_quantity
    → 0 < new_quantity
    → deref b loc ≡ some o
    → modify_found b id loc o new_price new_quantity seq ts ≡ some (r, b')
    → IsBook b'
unfolding modify_found
modify_found-IsBook b b' id loc o new_price new_quantity seq ts r h u f e k =
    elim (Bool-cases (eqb_ℤ new_price o.price && leb new_quantity o.remaining_quantity)) [
      | inl t ↦
          let same : amend_in_place b loc o new_quantity ≡ b' = cc in
          subst IsBook same (amend_in_place-IsBook b loc o new_quantity h e f (ground arith))
      | inr t ↦ elim (Option-cases (remove_from_book b loc id)) [
        | inl g ↦ absurd cc
        | inr (c, g) ↦
            let a = replacement id o new_price new_quantity seq ts in
            let same : (add_order c a).1 ≡ b' = cc in
            subst IsBook same (add_order-IsBook c a (remove_from_book-IsBook b c loc id h g) u)
      ]
    ]

-- A modification that does not run into a dangling iterator keeps the book well formed.
pub modify_order-IsBook :
    (b b' : OrderBook) (id : OrderId) (new_price : Price) (new_quantity seq ts : ℕ)
    (r : ModifyResult)
    → IsBook b
    → IsU64 new_quantity
    → modify_order b id new_price new_quantity seq ts ≡ some (r, b')
    → IsBook b'
unfolding modify_order
modify_order-IsBook b b' id new_price new_quantity seq ts r h u e =
    elim (Option-cases (Keyed.find id b.index)) [
      | inl f ↦ let same : b ≡ b' = cc in subst IsBook same h
      | inr (loc, f) ↦ elim (Bool-cases (new_quantity == 0)) [
        | inl g ↦ let same : b ≡ b' = cc in subst IsBook same h
        | inr g ↦ elim (Bool-cases (leb_ℤ new_price (ℤ.pos 0))) [
          | inl k ↦ let same : b ≡ b' = cc in subst IsBook same h
          | inr k ↦ elim (Option-cases (deref b loc)) [
            | inl d ↦ absurd cc
            | inr (o, d) ↦
                let same : modify_found b id loc o new_price new_quantity seq ts ≡ some (r, b') =
                  cc in
                modify_found-IsBook b b' id loc o new_price new_quantity seq ts r h u (ground arith)
                  d same
          ]
        ]
      ]
    ]
