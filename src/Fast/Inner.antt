-- ===== src/Fast/Inner.antt =====
-- The inner loop of the pooled `Match` does what that of the reference book does, on the slots.
use order_book_matching_engi.Common.{
  ℕ, zero, suc, ◌+◌, ◌-◌, ◌<◌, ◌≤◌, ◌≡◌, refl, ap, ◌∙◌, ◌==◌, true, false, length, min, Option,
  none, some, Bool-cases, inl, inr, List, [], ◌∷◌, arith,
}
use order_book_matching_engi.Common.Words.{sub64}
use order_book_matching_engi.Common.Keyed
use order_book_matching_engi.Types.{Price, Quantity, Trade}
use order_book_matching_engi.Pool.{live, load}
use order_book_matching_engi.Pool.FreeList.{IsPool}
use order_book_matching_engi.Naive
use order_book_matching_engi.Naive.{Index}
use order_book_matching_engi.Naive.Matching.{
  Incoming, Filled, trade_of, trade_quantity, left_over, reduced, match_orders,
}
use order_book_matching_engi.Fast
use order_book_matching_engi.Fast.{NodePool}
use order_book_matching_engi.Fast.Filling.{Filling, fill_node, fill_level}
use order_book_matching_engi.Fast.Cells.{Queue, has, head_of, Cells, level_of}
use order_book_matching_engi.Fast.Rounds.{
  links, level, round, cell, fill_node_filled, fill_node-reduced,
}

-- The pool after the queue `ns` of a level has become `left`.
pub record IsLeft (pool : NodePool) (ns left : Queue) (pool' : NodePool) (ps' : List ℕ)
    : Type 0 where
  pub is_pool : IsPool pool' ps'
  pub cells : Cells pool'.slots none left
  pub outside : (q : ℕ) → has q ns ≡ false → pool'.slots q ≡ pool.slots q
  pub in_use : pool'.in_use + length ns ≡ pool.in_use + length left
  pub capacity : pool'.capacity ≡ pool.capacity

match_orders_none :
    (symbol : ℕ) (a : Incoming) (total remaining : Quantity) (index : Index)
    → match_orders symbol a [] total remaining index
      ≡ record { orders = []; total = total; remaining = remaining; index = index; trades = [] }
unfolding match_orders
match_orders_none symbol a total remaining index = refl

match_orders_spent :
    (symbol : ℕ) (a : Incoming) (ns : Queue) (total : Quantity) (index : Index)
    → match_orders symbol a ns total 0 index
      ≡ record { orders = ns; total = total; remaining = 0; index = index; trades = [] }
unfolding match_orders
match_orders_spent symbol a [] total index = refl
match_orders_spent symbol a (n ∷ ns) total index = refl

module _ (symbol : ℕ) (a : Incoming) (n : Naive.Node) (ns : Queue) (total remaining : ℕ)
    (index : Index) where
  abbrev rest_of : Index → Filled
  rest_of index' =
      match_orders symbol a ns (sub64 total (trade_quantity n remaining))
        (remaining - trade_quantity n remaining) index'

  -- One round of the inner loop of the reference book.
  match_orders_done :
      (remaining == 0) ≡ true
      → match_orders symbol a (n ∷ ns) total remaining index ≡ record {
        orders = n ∷ ns;
        total = total;
        remaining = remaining;
        index = index;
        trades = [];
      }
  unfolding match_orders
  match_orders_done z = rw z refl

  match_orders_filled :
      (remaining == 0) ≡ false
      → (left_over n remaining == 0) ≡ true
      → match_orders symbol a (n ∷ ns) total remaining index
        ≡ record (rest_of (Keyed.erase n.order.id index)) {
          trades =
              trade_of symbol a n.order (trade_quantity n remaining)
              ∷ (rest_of (Keyed.erase n.order.id index)).trades;
        }
  unfolding match_orders
  match_orders_filled z e = rw (z, e) refl

  match_orders-reduced :
      (remaining == 0) ≡ false
      → (left_over n remaining == 0) ≡ false
      → match_orders symbol a (n ∷ ns) total remaining index ≡ record {
        orders = reduced n (left_over n remaining) ∷ ns;
        total = sub64 total (trade_quantity n remaining);
        remaining = 0;
        index = index;
        trades = trade_of symbol a n.order (trade_quantity n remaining) ∷ [];
      }
  unfolding match_orders
  match_orders-reduced z e =
      let spent : remaining - trade_quantity n remaining ≡ 0 = ground arith in
      ground (
        arith,
        z,
        e,
        spent,
        match_orders_spent symbol a ns (sub64 total (trade_quantity n remaining)) index,
      )

module _ (symbol : ℕ) (a : Incoming) (fuel : ℕ) where
  -- One round of the pooled inner loop.
  fill_level_done :
      (cur : Option ℕ) (f : Filling)
      → (f.remaining == 0) ≡ true
      → fill_level (suc fuel) symbol a cur f ≡ some ([], f)
  unfolding fill_level
  fill_level_done cur f z = ground (arith, z)

  fill_level_end : (f : Filling) → fill_level (suc fuel) symbol a none f ≡ some ([], f)
  unfolding fill_level
  fill_level_end f = ground arith

  fill_level_step :
      (q : ℕ) (v : Fast.Node) (f f' f'' : Filling) (ts : List Trade)
      → (f.remaining == 0) ≡ false
      → f.pool.slots q ≡ live v
      → fill_node q v f ≡ some f'
      → fill_level fuel symbol a v.next f' ≡ some (ts, f'')
      → fill_level (suc fuel) symbol a (some q) f
        ≡ some (trade_of symbol a v.order (min f.remaining v.order.remaining_quantity) ∷ ts, f'')
  unfolding fill_level load trade_of Fast.Filling.trade_of
  fill_level_step q v f f' f'' ts z e run more = ground (arith, z, e, run, more)

fill_level_spent :
    (symbol : ℕ) (a : Incoming) (fuel : ℕ) (cur : Option ℕ) (f : Filling)
    → (f.remaining == 0) ≡ true
    → 0 < fuel
    → fill_level fuel symbol a cur f ≡ some ([], f)
fill_level_spent symbol a zero cur f z b = absurd (omega arith)
fill_level_spent symbol a (suc fuel) cur f z b = fill_level_done symbol a fuel cur f z

module _ (symbol : ℕ) (a : Incoming) (p : Price) where
  -- What the inner loop leaves.
  abbrev pub filling : Filled → NodePool → Filling
  filling f pool = record {
    pool = pool;
    level = level_of (level p f.total f.orders);
    remaining = f.remaining;
    index = links f.index;
  }

  pub fill_level-IsLeft :
      (ns : Queue) (fuel : ℕ) (pool : NodePool) (total : Quantity) (remaining : ℕ) (index : Index)
      (ps : List ℕ)
      → Cells pool.slots none ns
      → IsPool pool ps
      → length ns ≤ pool.in_use
      → length ns < fuel
      → let f = match_orders symbol a ns total remaining index in
        (pool' : NodePool) × (ps' : List ℕ) × (fill_level fuel symbol a (head_of ns) (record {
          pool = pool;
          level = level_of (level p total ns);
          remaining = remaining;
          index = links index;
        })
          ≡ some (f.trades, filling f pool'))
        × IsLeft pool ns f.orders pool' ps'
  fill_level-IsLeft ns zero pool total remaining index ps c h u b = absurd (omega arith)
  fill_level-IsLeft [] (suc fuel) pool total remaining index ps c h u b =
      rw (match_orders_none symbol a total remaining index) (
        pool,
        ps,
        fill_level_end symbol a fuel _,
        record { is_pool = h; cells = tt; outside = λ q i. refl; in_use = refl; capacity = refl },
      )
  fill_level-IsLeft (n ∷ ns) (suc fuel) pool total remaining index ps c h u b =
      elim (Bool-cases (remaining == 0)) [
        | inl z ↦ rw (match_orders_done symbol a n ns total remaining index z) (
          pool,
          ps,
          fill_level_done symbol a fuel (some n.it) (round pool p total n ns remaining index ps c h)
              z,
          record { is_pool = h; cells = c; outside = λ q i. refl; in_use = refl; capacity = refl },
        )
        | inr z ↦ elim (Bool-cases (left_over n remaining == 0)) [
          | inl e ↦
              let t = trade_quantity n remaining in
              let (pool1, run, h1, c1, same, counted, capacity) =
                fill_node_filled pool p total n ns remaining index ps c h (omega arith)
                  (ground arith) in
              let (pool2, ps2, more, k) =
                fill_level-IsLeft ns fuel pool1 (sub64 total t) (remaining - t)
                  (Keyed.erase n.order.id index) (n.it ∷ ps) c1 h1 (omega arith) (omega arith) in
              rw (match_orders_filled symbol a n ns total remaining index z e) (
                pool2,
                ps2,
                fill_level_step symbol a fuel n.it (cell pool p total n ns remaining index ps c h) _
                    _ _ _ z c.0 run more,
                record {
                  is_pool = k.is_pool;
                  cells = k.cells;
                  outside = λ q i. k.outside q (ground arith) ∙ same q i;
                  in_use = omega (arith, k.in_use);
                  capacity = k.capacity ∙ capacity;
                },
              )
          | inr e ↦
              let (pool1, run, h1, c1, same, counted, capacity) =
                fill_node-reduced pool p total n ns remaining index ps c h e in
              rw (match_orders-reduced symbol a n ns total remaining index z e) (
                pool1,
                ps,
                fill_level_step symbol a fuel n.it (cell pool p total n ns remaining index ps c h) _
                    _ _ _ z c.0 run (fill_level_spent symbol a fuel _ _ refl (omega arith)),
                record {
                  is_pool = h1;
                  cells = c1;
                  outside = same;
                  in_use = ap (λ k. k + suc (length ns)) counted;
                  capacity = capacity;
                },
              )
        ]
      ]
