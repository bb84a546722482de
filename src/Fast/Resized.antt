-- ===== src/Fast/Resized.antt =====
-- An order whose quantity was reduced in its slot, and the counts that `Match` can only lower.
use order_book_matching_engi.Common.{
  ℕ, ◌-◌, ◌≤◌, ◌≡◌, refl, ap, ◌∙◌, ◌==◌, Bool, true, false, is_empty, length, Bool-cases, inl, inr,
  Option, none, some, [], ◌∷◌, arith,
}
use order_book_matching_engi.Common.Int.{eqb_ℤ}
use order_book_matching_engi.Common.Words.{sub64}
use order_book_matching_engi.Types.{Price, Order, Quantity}
use order_book_matching_engi.Levels.{find, upsert, precedes}
use order_book_matching_engi.Levels.Laws.{IsSorted, find_before, precedes-All}
use order_book_matching_engi.Naive
use order_book_matching_engi.Naive.{Index, find_node}
use order_book_matching_engi.Naive.Matching
use order_book_matching_engi.Naive.Matching.{
  Incoming, Filled, match_orders, trade_quantity, index_after,
}
use order_book_matching_engi.Naive.Amend.{resize_node}
use order_book_matching_engi.Fast
use order_book_matching_engi.Fast.Cells.{
  Slots, Queue, node, has, head_of, last_of, Cells, level_of, prev_of, next_of, Cells-undisturbed,
}
use order_book_matching_engi.Fast.Removing.{apart}
use order_book_matching_engi.Fast.Queues.{BookSide, levels_of, nodes}
use order_book_matching_engi.Fast.Shrinking.{shrunk}

module _ (it : ℕ) (r q : Quantity) where
  pub resize_node-has : (p : ℕ) (ns : Queue) → has p (resize_node it r q ns) ≡ has p ns
  unfolding resize_node
  resize_node-has p [] = refl
  resize_node-has p (n ∷ ns) = ground (arith, resize_node-has p ns)

  resize_node-head : (ns : Queue) → head_of (resize_node it r q ns) ≡ head_of ns
  unfolding resize_node
  resize_node-head [] = refl
  resize_node-head (n ∷ ns) = ground arith

  resize_node-last :
      (prev : Option ℕ) (ns : Queue) → last_of prev (resize_node it r q ns) ≡ last_of prev ns
  unfolding resize_node
  resize_node-last prev [] = refl
  resize_node-last prev (n ∷ ns) = ground (arith, resize_node-last (some n.it) ns)

  pub resize_node-length : (ns : Queue) → length (resize_node it r q ns) ≡ length ns
  unfolding resize_node
  resize_node-length [] = refl
  resize_node-length (n ∷ ns) = ground (arith, resize_node-length ns)

  pub resize_filled : (ns : Queue) → has it ns ≡ true → is_empty (resize_node it r q ns) ≡ false
  unfolding resize_node
  resize_filled [] i = absurd cc
  resize_filled (n ∷ ns) i = ground arith

  pub level_of-resize :
      (l : Naive.PriceLevel) (total : Quantity)
      → level_of (record l { total_quantity = total; orders = resize_node it r q l.orders })
        ≡ record (level_of l) { total_quantity = total }
  level_of-resize l total = ground (
    arith,
    resize_node-head l.orders,
    resize_node-last none l.orders,
    resize_node-length l.orders,
  )

  -- The slots hold the queue with the new order in its slot.
  pub Cells-resize :
      (s s' : Slots) (prev : Option ℕ) (ns : Queue) (o : Order)
      → Cells s prev ns
      → find_node it ns ≡ some o
      → s' it
        ≡ node
            (record o { remaining_quantity = r; quantity = q })
            (prev_of it prev ns)
            (next_of it ns)
      → ((p : ℕ) → (it == p) ≡ false → s' p ≡ s p)
      → Cells s' prev (resize_node it r q ns)
  unfolding resize_node find_node
  Cells-resize s s' prev [] o c f e same = absurd cc
  Cells-resize s s' prev (n ∷ ns) o c f e same = elim (Bool-cases (n.it == it)) [
    | inl t ↦
        let here : n.it ≡ it = ground arith in
        let order : n.order ≡ o = cc (rw t at f) in
        let e' : s' it
            ≡ node (record o { remaining_quantity = r; quantity = q }) prev (head_of ns) =
          rw t at e in
        let outside : has it ns ≡ false = ground (arith, ap (λ x. has x ns) here) in
        rw t (
          ap s' here ∙ rw order e',
          c.1,
          Cells-undisturbed s s' (some n.it) ns c.2 (λ p i. same p (apart it p ns outside i)),
        )
    | inr t ↦
        let f' : find_node it ns ≡ some o = rw t at f in
        rw t (
          same n.it (ground arith) ∙ rw (resize_node-head ns) c.0,
          resize_node-has n.it ns ∙ c.1,
          Cells-resize s s' (some n.it) ns o c.2 f' (rw t at e) same,
        )
  ]

-- An update that agrees on each level.
pub upsert-levels_as :
    (bids : Bool) (p : Price) (f : Naive.PriceLevel → Naive.PriceLevel)
    (g : Fast.PriceLevel → Fast.PriceLevel) (ls : BookSide)
    → ((l : Naive.PriceLevel) → g (level_of l) ≡ level_of (f l))
    → upsert bids Fast.fresh_level g p (levels_of ls)
      ≡ levels_of (upsert bids Naive.fresh_level f p ls)
unfolding upsert
upsert-levels_as bids p f g [] h = ap (λ x. (p, x) ∷ []) (h Naive.fresh_level)
upsert-levels_as bids p f g ((q, l) ∷ ls) h =
    ground (arith, upsert-levels_as bids p f g ls h, h l, h Naive.fresh_level)

-- An update of a level that is there.
pub upsert_found :
    (bids : Bool) (p : Price) (f : Naive.PriceLevel → Naive.PriceLevel) (l : Naive.PriceLevel)
    (ls : BookSide)
    → IsSorted bids ls
    → find p ls ≡ some l
    → is_empty (f l).orders ≡ false
    → upsert bids Naive.fresh_level f p ls ≡ shrunk bids p (f l) ls
unfolding find upsert
upsert_found bids p f l ls h e d = go ls h e ∙ rw d refl
  where
    go :
        (ls : BookSide)
        → IsSorted bids ls
        → find p ls ≡ some l
        → upsert bids Naive.fresh_level f p ls ≡ upsert bids Naive.fresh_level (λ _. f l) p ls
    go [] h e = absurd cc
    go ((q, m) ∷ ls) h e = elim (Bool-cases (eqb_ℤ q p)) [
      | inl t ↦ let same : m ≡ l = ground arith in rw t (ap (λ x. (p, f x) ∷ ls) same)
      | inr t ↦ elim (Bool-cases (precedes bids p q)) [
        | inl u ↦ absurd (ground (arith, find_before bids p ls (precedes-All bids p q ls u h.0)))
        | inr u ↦ rw (t, u) (ap (λ x. (q, m) ∷ x) (go ls h.1 (rw t at e)))
      ]
    ]

module _ (symbol : ℕ) (a : Incoming) where
  match_orders-length :
      (ns : Queue) (total remaining : ℕ) (index : Index)
      → length (match_orders symbol a ns total remaining index).orders ≤ length ns
  unfolding match_orders
  match_orders-length [] total remaining index = omega arith
  match_orders-length (n ∷ ns) total remaining index = ground (
    arith,
    match_orders-length ns (sub64 total (trade_quantity n remaining))
        (remaining - trade_quantity n remaining) (index_after n remaining index),
  )

  pub match_levels-nodes :
      (ls : BookSide) (remaining : ℕ) (index : Index)
      → nodes (Matching.match_levels symbol a ls remaining index).levels ≤ nodes ls
  unfolding Matching.match_levels
  match_levels-nodes [] remaining index = omega arith
  match_levels-nodes ((p, l) ∷ ls) remaining index =
      let f : Filled = match_orders symbol a l.orders l.total_quantity remaining index in
      ground (
        arith,
        match_levels-nodes ls f.remaining f.index,
        match_orders-length l.orders l.total_quantity remaining index,
      )
