-- ===== src/Fast/Resting.antt =====
-- `InsertResting` of the pooled book does what that of the reference book does, at the slot that
-- it takes from the pool.
use order_book_matching_engi.Common.{
  ℕ, ◌≡◌, refl, sym, ap, ◌∙◌, Bool, true, false, Bool-cases, inl, inr, Option, none, some, List, [],
  ◌∷◌, arith,
}
use order_book_matching_engi.Common.Words.{add64}
use order_book_matching_engi.Common.Keyed
use order_book_matching_engi.Types.{Price, Order, is_buy}
use order_book_matching_engi.Levels
use order_book_matching_engi.Levels.Laws.{IsSorted}
use order_book_matching_engi.Pool.{acquire}
use order_book_matching_engi.Pool.FreeList.{first, IsPool, acquire_none}
use order_book_matching_engi.Naive
use order_book_matching_engi.Naive.Operations
use order_book_matching_engi.Naive.Operations.{push_order}
use order_book_matching_engi.Fast
use order_book_matching_engi.Fast.{NodePool}
use order_book_matching_engi.Fast.Links.{push_back}
use order_book_matching_engi.Fast.Book
use order_book_matching_engi.Fast.Cells.{level_of}
use order_book_matching_engi.Fast.Queues.{BookSide, levels_of, in_levels}
use order_book_matching_engi.Fast.Pushed.{found, side_with, in_levels-upsert, nodes-upsert}
use order_book_matching_engi.Fast.Image.{
  book_of, IsHeld, find-levels_of, insert-links, upsert-levels_of,
}
use order_book_matching_engi.Fast.Placing.{free_not_in, push_side}

level_at-levels_of :
    (p : Price) (ls : BookSide) → Book.level_at p (levels_of ls) ≡ level_of (found p ls)
level_at-levels_of p ls =
    ap (λ x. elim x as (λ _. Fast.PriceLevel) [ none ↦ Fast.fresh_level | some l ↦ l ])
      (find-levels_of p ls)
    ∙ pull (Levels.find p ls)
  where
    pull :
        (x : Option Naive.PriceLevel)
        → (elim (elim x as (λ _. Option Fast.PriceLevel) [
          | none ↦ none
          | some l ↦ some (level_of l)
        ])
            as (λ _. Fast.PriceLevel) [ none ↦ Fast.fresh_level | some l ↦ l ])
          ≡ level_of (elim x as (λ _. Naive.PriceLevel) [ none ↦ Naive.fresh_level | some l ↦ l ])
    pull none = refl
    pull (some l) = refl

-- `InsertResting` of the pooled book on a slot and a level.
insert_resting_run :
    (b : Fast.OrderBook) (o : Order) (it : ℕ) (pool1 pool2 : NodePool) (l1 : Fast.PriceLevel)
    → acquire b.pool (record { order = o; prev = none; next = none }) ≡ some (some it, pool1)
    → push_back pool1
        (record (Book.level_at o.price (Fast.on_side b o.side)) {
          price = o.price;
          total_quantity =
              add64
                (Book.level_at o.price (Fast.on_side b o.side)).total_quantity
                o.remaining_quantity;
        })
        it
      ≡ some (pool2, l1)
    → Book.insert_resting b o
      ≡ some (
        some it,
        record (Fast.with_side b o.side (
            Levels.upsert
              (is_buy o.side)
              Fast.fresh_level
              (λ _. l1)
              o.price
              (Fast.on_side b o.side))) { index = Keyed.insert o.id it b.index; pool = pool2 },
      )
unfolding Book.insert_resting
insert_resting_run b o it pool1 pool2 l1 taken linked = rw taken (rw linked refl)

-- No address is in both sides.
abbrev pub Split : BookSide → BookSide → Type 0
Split xs ys = (q : ℕ) → in_levels q xs ≡ true → in_levels q ys ≡ false

pub Split-sym : (xs ys : BookSide) → Split xs ys → Split ys xs
Split-sym xs ys h q i = elim (Bool-cases (in_levels q xs)) [
  | inl t ↦ absurd (cc (h q t, i))
  | inr t ↦ t
]

Split-upsert :
    (bids : Bool) (p : Price) (n : Naive.Node) (ls other : BookSide)
    → Split ls other
    → in_levels n.it other ≡ false
    → Split (side_with bids p n ls) other
Split-upsert bids p n ls other h d q i = elim (Bool-cases (in_levels q ls)) [
  | inl t ↦ h q t
  | inr t ↦
      let same : n.it ≡ q = ground (arith, in_levels-upsert bids p n q ls) in
      sym (ap (λ x. in_levels x other) same) ∙ d
]

module _ (b : Naive.OrderBook) (pool : NodePool) (it : ℕ) (ps : List ℕ) (o : Order)
    (h : IsHeld b.bids b.asks pool (it ∷ ps))
    (sorted : IsSorted true b.bids × IsSorted false b.asks) where
  abbrev inserted : Naive.OrderBook
  inserted = Operations.insert_resting (record b { next_node = it }) o

  abbrev Inserts : Type 0
  Inserts =
      (pool' : NodePool) × (Book.insert_resting (book_of b pool) o
        ≡ some (some it, book_of inserted pool'))
      × IsHeld inserted.bids inserted.asks pool' ps
      × (pool'.capacity ≡ pool.capacity)

  insert_bid : is_buy o.side ≡ true → Inserts
  unfolding Operations.insert_resting
  insert_bid e =
      let node : Naive.Node = record { it = it; order = o } in
      let (pool1, pool2, taken, linked, is_pool, here, there, counted, capacity) =
        push_side true b.bids b.asks pool it ps o h.is_pool h.bids_held h.asks_held sorted.0
          (Split-sym b.bids b.asks h.apart) in
      (
        pool2,
        insert_resting_run (book_of b pool) o it pool1 pool2
              (level_of (push_order o.price node (found o.price b.bids))) taken
              (rw e (rw (level_at-levels_of o.price b.bids) linked))
            ∙ rw
                (
                  e,
                  upsert-levels_of true o.price (push_order o.price node) b.bids sorted.0,
                  insert-links o.id (record { side = o.side; price = o.price; it = it }) b.index,
                )
                refl,
        rw e (record {
          is_pool = is_pool;
          bids_held = here;
          asks_held = there;
          apart =
              Split-upsert true o.price node b.bids b.asks h.apart
                (free_not_in pool.slots it b.asks (first ps) h.asks_held h.is_pool.links.0);
          counted = omega (arith, counted, h.counted, nodes-upsert true o.price node b.bids);
        }),
        capacity,
      )

  insert_ask : is_buy o.side ≡ false → Inserts
  unfolding Operations.insert_resting
  insert_ask e =
      let node : Naive.Node = record { it = it; order = o } in
      let (pool1, pool2, taken, linked, is_pool, here, there, counted, capacity) =
        push_side false b.asks b.bids pool it ps o h.is_pool h.asks_held h.bids_held sorted.1
          h.apart in
      (
        pool2,
        insert_resting_run (book_of b pool) o it pool1 pool2
              (level_of (push_order o.price node (found o.price b.asks))) taken
              (rw e (rw (level_at-levels_of o.price b.asks) linked))
            ∙ rw
                (
                  e,
                  upsert-levels_of false o.price (push_order o.price node) b.asks sorted.1,
                  insert-links o.id (record { side = o.side; price = o.price; it = it }) b.index,
                )
                refl,
        rw e (record {
          is_pool = is_pool;
          bids_held = there;
          asks_held = here;
          apart = Split-sym (side_with false o.price node b.asks) b.bids (
              Split-upsert false o.price node b.asks b.bids (Split-sym b.bids b.asks h.apart)
                (free_not_in pool.slots it b.bids (first ps) h.bids_held h.is_pool.links.0));
          counted = omega (arith, counted, h.counted, nodes-upsert false o.price node b.asks);
        }),
        capacity,
      )

  -- With a free slot the order rests there.
  pub insert_resting-IsHeld : Inserts
  insert_resting-IsHeld = elim (Bool-cases (is_buy o.side)) [
    | inl e ↦ insert_bid e
    | inr e ↦ insert_ask e
  ]

-- With none the book stays, and the null pointer is returned.
pub insert_resting_null :
    (b : Naive.OrderBook) (pool : NodePool) (o : Order)
    → IsPool pool []
    → Book.insert_resting (book_of b pool) o ≡ some (none, book_of b pool)
unfolding Book.insert_resting
insert_resting_null b pool o h =
    rw (acquire_none pool (record { order = o; prev = none; next = none }) h) refl
