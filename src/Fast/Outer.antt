-- ===== src/Fast/Outer.antt =====
-- The outer loop of the pooled `Match` does what that of the reference book does, on the slots.
use order_book_matching_engi.Common.{
  ℕ, suc, ◌+◌, ◌-◌, ◌≤◌, ◌≡◌, refl, ap, ◌∙◌, ◌==◌, true, false, not, ◌||◌, is_empty, length,
  if◌then◌else◌, none, some, Bool-cases, inl, inr, List, [], ◌∷◌, ◌++◌, arith,
}
use order_book_matching_engi.Common.Words.{sub64}
use order_book_matching_engi.Types.{Price, OrderId, Trade}
use order_book_matching_engi.Levels.{Levels}
use order_book_matching_engi.Pool.FreeList.{IsPool}
use order_book_matching_engi.Naive
use order_book_matching_engi.Naive.{Index}
use order_book_matching_engi.Naive.Matching
use order_book_matching_engi.Naive.Matching.{
  Incoming, Filled, trade_quantity, left_over, index_after, match_orders, price_crosses,
}
use order_book_matching_engi.Fast
use order_book_matching_engi.Fast.{NodePool}
use order_book_matching_engi.Fast.Filling
use order_book_matching_engi.Fast.Filling.{Filling, fill_level}
use order_book_matching_engi.Fast.Cells.{Queue, has, level_of, Cells-undisturbed}
use order_book_matching_engi.Fast.Rounds.{links, level}
use order_book_matching_engi.Fast.Inner.{IsLeft, filling, fill_level-IsLeft}
use order_book_matching_engi.Fast.Queues.{
  BookSide, levels_of, in_levels, nodes, AreApart, Queues, Queues-undisturbed, not_in_first,
}

-- The pool after a side has become `left`.
pub record IsTraded (pool : NodePool) (ls left : BookSide) (pool' : NodePool) (ps' : List ℕ)
    : Type 0 where
  pub is_pool : IsPool pool' ps'
  pub queues : Queues pool'.slots left
  pub outside : (q : ℕ) → in_levels q ls ≡ false → pool'.slots q ≡ pool.slots q
  pub in_use : pool'.in_use + nodes ls ≡ pool.in_use + nodes left
  pub capacity : pool'.capacity ≡ pool.capacity

pub is_empty-length : (ns : Queue) → is_empty ns ≡ true → length ns ≡ 0
is_empty-length [] e = refl
is_empty-length (n ∷ ns) e = cc

-- A level and then the levels behind it.
trade_first :
    (pool pool1 pool2 : NodePool) (ps1 ps2 : List ℕ) (p : Price) (l l' : Naive.PriceLevel)
    (ls left : BookSide)
    → IsLeft pool l.orders l'.orders pool1 ps1
    → IsTraded pool1 ls left pool2 ps2
    → AreApart l.orders ls
    → ((q : ℕ) → has q l.orders ≡ false → has q l'.orders ≡ false)
    → ((q : ℕ) → in_levels q ls ≡ false → in_levels q left ≡ false)
    → IsTraded pool ((p, l) ∷ ls) (if is_empty l'.orders then left else (p, l') ∷ left) pool2 ps2
trade_first pool pool1 pool2 ps1 ps2 p l l' ls left k r d shrinks shrinks' =
    let outside : (q : ℕ) → in_levels q ((p, l) ∷ ls) ≡ false → pool2.slots q ≡ pool.slots q =
      λ q i. r.outside q (ground arith) ∙ k.outside q (ground arith) in
    let still : (q : ℕ) → has q l'.orders ≡ true → has q l.orders ≡ true =
      λ q. ground (arith, shrinks q) in
    let inside : (q : ℕ) → has q l'.orders ≡ true → in_levels q ls ≡ false =
      λ q i. d q (still q i) in
    elim (Bool-cases (is_empty l'.orders)) [
      | inl e ↦ rw e (record {
        is_pool = r.is_pool;
        queues = r.queues;
        outside = outside;
        in_use = omega (arith, k.in_use, r.in_use, is_empty-length l'.orders e);
        capacity = r.capacity ∙ k.capacity;
      })
      | inr e ↦ rw e (record {
        is_pool = r.is_pool;
        queues = (
          Cells-undisturbed pool1.slots pool2.slots none l'.orders k.cells
              (λ q i. r.outside q (inside q i)),
          λ q i. shrinks' q (inside q i),
          r.queues,
        );
        outside = outside;
        in_use = omega (arith, k.in_use, r.in_use);
        capacity = r.capacity ∙ k.capacity;
      })
    ]

match_levels_none :
    (symbol : ℕ) (a : Incoming) (remaining : ℕ) (index : Index)
    → Matching.match_levels symbol a [] remaining index
      ≡ record { levels = []; remaining = remaining; index = index; trades = [] }
unfolding Matching.match_levels
match_levels_none symbol a remaining index = refl

pooled_none :
    (symbol : ℕ) (a : Incoming) (remaining : ℕ) (index : List (OrderId × ℕ)) (pool : NodePool)
    → Filling.match_levels symbol a [] remaining index pool
      ≡ some
          (record { levels = []; remaining = remaining; index = index; pool = pool; trades = [] })
unfolding Filling.match_levels
pooled_none symbol a remaining index pool = refl

module _ (symbol : ℕ) (a : Incoming) where
  -- Trading brings no address to a queue.
  match_orders_within :
      (ns : Queue) (total remaining : ℕ) (index : Index) (q : ℕ)
      → has q ns ≡ false
      → has q (match_orders symbol a ns total remaining index).orders ≡ false
  unfolding match_orders
  match_orders_within [] total remaining index q h = refl
  match_orders_within (n ∷ ns) total remaining index q h = ground (
    arith,
    match_orders_within ns (sub64 total (trade_quantity n remaining))
        (remaining - trade_quantity n remaining) (index_after n remaining index) q,
  )

  pub match_levels_within :
      (ls : BookSide) (remaining : ℕ) (index : Index) (q : ℕ)
      → in_levels q ls ≡ false
      → in_levels q (Matching.match_levels symbol a ls remaining index).levels ≡ false
  unfolding Matching.match_levels
  match_levels_within [] remaining index q h = refl
  match_levels_within ((p, l) ∷ ls) remaining index q h =
      let f : Filled = match_orders symbol a l.orders l.total_quantity remaining index in
      ground (
        arith,
        match_levels_within ls f.remaining f.index q,
        match_orders_within l.orders l.total_quantity remaining index q,
      )

  -- One round of the outer loop of the reference book.
  module _ (p : Price) (l : Naive.PriceLevel) (ls : BookSide) (remaining : ℕ) (index : Index) where
    abbrev left_of : Filled
    left_of = match_orders symbol a l.orders l.total_quantity remaining index

    abbrev rest_of : Matching.Matched
    rest_of = Matching.match_levels symbol a ls left_of.remaining left_of.index

    match_levels_done :
        (remaining == 0 || not (Matching.crosses a p)) ≡ true
        → Matching.match_levels symbol a ((p, l) ∷ ls) remaining index
          ≡ record { levels = (p, l) ∷ ls; remaining = remaining; index = index; trades = [] }
    unfolding Matching.match_levels
    match_levels_done z = rw z refl

    match_levels_step :
        (remaining == 0 || not (Matching.crosses a p)) ≡ false
        → Matching.match_levels symbol a ((p, l) ∷ ls) remaining index ≡ record rest_of {
          levels =
              if is_empty left_of.orders
              then rest_of.levels
              else (p, record l { orders = left_of.orders; total_quantity = left_of.total })
                ∷ rest_of.levels;
          trades = left_of.trades ++ rest_of.trades;
        }
    unfolding Matching.match_levels
    match_levels_step z = rw z refl

  -- The outer loop over what the two books have in common.
  abbrev pub traded : Matching.Matched → NodePool → Filling.Matched
  traded m pool = record {
    levels = levels_of m.levels;
    remaining = m.remaining;
    index = links m.index;
    pool = pool;
    trades = m.trades;
  }

  crosses_same : (p : Price) → Filling.crosses a p ≡ Matching.crosses a p
  unfolding Filling.price_crosses price_crosses
  crosses_same p = refl

  module _ (p : Price) (l : Fast.PriceLevel) (ls : Levels Fast.PriceLevel) (remaining : ℕ)
      (index : List (OrderId × ℕ)) (pool : NodePool) where
    pooled_done :
        (remaining == 0 || not (Filling.crosses a p)) ≡ true
        → Filling.match_levels symbol a ((p, l) ∷ ls) remaining index pool
          ≡ some (record {
            levels = (p, l) ∷ ls;
            remaining = remaining;
            index = index;
            pool = pool;
            trades = [];
          })
    unfolding Filling.match_levels
    pooled_done z = ground (arith, z)

    pooled_step :
        (ts : List Trade) (f : Filling) (rest : Filling.Matched)
        → (remaining == 0 || not (Filling.crosses a p)) ≡ false
        → fill_level
            (suc (suc l.count))
            symbol
            a
            l.head
            (record { pool = pool; level = l; remaining = remaining; index = index })
          ≡ some (ts, f)
        → Filling.match_levels symbol a ls f.remaining f.index f.pool ≡ some rest
        → Filling.match_levels symbol a ((p, l) ∷ ls) remaining index pool
          ≡ some (record rest {
            levels = if f.level.count == 0 then rest.levels else (p, f.level) ∷ rest.levels;
            trades = ts ++ rest.trades;
          })
    unfolding Filling.match_levels
    pooled_step ts f rest z run more = ground (arith, z, run, more)

  -- Erasing an empty level is the same in both books.
  kept_same :
      (p : Price) (l : Naive.PriceLevel) (ls : BookSide)
      → (if length l.orders == 0 then levels_of ls else (p, level_of l) ∷ levels_of ls)
        ≡ levels_of (if is_empty l.orders then ls else (p, l) ∷ ls)
  kept_same p l ls = ground arith

  -- On the levels of a side in the slots of a pool, `Match` returns within its fuel, with the levels,
  -- the quantity left, the index and the trades of the reference book; the slots hold what is left of
  -- the side, slots outside it are as they were, and the pool has a slot back for each node that left.
  pub match_levels-IsTraded :
      (ls : BookSide) (remaining : ℕ) (index : Index) (pool : NodePool) (ps : List ℕ)
      → Queues pool.slots ls
      → IsPool pool ps
      → nodes ls ≤ pool.in_use
      → let m = Matching.match_levels symbol a ls remaining index in
        (pool' : NodePool) × (ps' : List ℕ) × (Filling.match_levels symbol a
            (levels_of ls)
            remaining
            (links index)
            pool
          ≡ some (traded m pool'))
        × IsTraded pool ls m.levels pool' ps'
  match_levels-IsTraded [] remaining index pool ps c h u =
      rw (match_levels_none symbol a remaining index) (
        pool,
        ps,
        pooled_none symbol a remaining (links index) pool,
        record { is_pool = h; queues = tt; outside = λ q i. refl; in_use = refl; capacity = refl },
      )
  match_levels-IsTraded ((p, l) ∷ ls) remaining index pool ps c h u =
      elim (Bool-cases (remaining == 0 || not (Matching.crosses a p))) [
        | inl z ↦ rw (match_levels_done p l ls remaining index z) (
          pool,
          ps,
          pooled_done p (level_of l) (levels_of ls) remaining (links index) pool
              (rw (crosses_same p) z),
          record { is_pool = h; queues = c; outside = λ q i. refl; in_use = refl; capacity = refl },
        )
        | inr z ↦
            let f : Filled = match_orders symbol a l.orders l.total_quantity remaining index in
            let (pool1, ps1, run, k) =
              fill_level-IsLeft symbol a l.price l.orders (suc (suc (length l.orders))) pool
                l.total_quantity remaining index ps c.0 h (omega arith) (omega arith) in
            let c1 =
              Queues-undisturbed pool.slots pool1.slots ls c.2
                (λ q i. k.outside q (not_in_first q l.orders ls c.1 i)) in
            let (pool2, ps2, more, r) =
              match_levels-IsTraded ls f.remaining f.index pool1 ps1 c1 k.is_pool
                (omega (arith, k.in_use)) in
            rw (match_levels_step p l ls remaining index z) (
              pool2,
              ps2,
              pooled_step p (level_of l) (levels_of ls) remaining (links index) pool f.trades
                    (filling symbol a l.price f pool1) _ (rw (crosses_same p) z) run more
                  ∙ ap
                      (λ x. some (record (traded (rest_of p l ls remaining index) pool2) {
                        levels = x;
                        trades = f.trades ++ (rest_of p l ls remaining index).trades;
                      }))
                      (kept_same p (level l.price f.total f.orders)
                        (rest_of p l ls remaining index).levels),
              trade_first pool pool1 pool2 ps1 ps2 p l (level l.price f.total f.orders) ls
                  (rest_of p l ls remaining index).levels k r c.1
                  (match_orders_within l.orders l.total_quantity remaining index)
                  (match_levels_within ls f.remaining f.index),
            )
      ]
