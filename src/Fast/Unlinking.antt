-- ===== src/Fast/Unlinking.antt =====
-- `Unlink` takes a node out of the queue of its level, and changes no slot outside it.
use order_book_matching_engi.Common.{
  ℕ, ◌≡◌, refl, ap, ◌∙◌, ◌==◌, true, false, if◌then◌else◌, Option, none, some, Bool-cases, inl, inr,
  [], ◌∷◌, arith,
}
use order_book_matching_engi.Types.{Order}
use order_book_matching_engi.Pool.{live, decrement, load, store}
use order_book_matching_engi.Naive
use order_book_matching_engi.Naive.{find_node}
use order_book_matching_engi.Naive.Operations.{erase_node}
use order_book_matching_engi.Fast
use order_book_matching_engi.Fast.{NodePool}
use order_book_matching_engi.Fast.Links.{unlink_prev, unlink_next, unlink}
use order_book_matching_engi.Fast.Cells.{
  Slots, Queue, node, has, head_of, Cells, level_of, prev_of, next_of, is_ptr, cell_at,
  find_node-has, has-find_node, next_in, prev_in, erase_node-head, erase_node-length,
  erase_node-last,
}
use order_book_matching_engi.Fast.Relinking.{relinked, Cells-erase_node}

-- What `Unlink` leaves, pointwise: the pool's accounts, the other nodes relinked, this one loose.
pub record IsUnlinked (pool : NodePool) (it : ℕ) (o : Order) (pv nx : Option ℕ) (pool' : NodePool)
    : Type 0 where
  pub others : (q : ℕ) → (q == it) ≡ false → pool'.slots q ≡ relinked pv nx q (pool.slots q)
  pub loose : pool'.slots it ≡ node o none none
  pub capacity : pool'.capacity ≡ pool.capacity
  pub free_head : pool'.free_head ≡ pool.free_head
  pub in_use : pool'.in_use ≡ pool.in_use

module _ (pool : NodePool) (lv : Fast.PriceLevel) (it : ℕ) (o : Order) where
  unlink_only :
      pool.slots it ≡ node o none none
      → (pool' : NodePool) × (unlink pool lv it
          ≡ some (pool', record lv { head = none; tail = none; count = decrement lv.count }))
        × IsUnlinked pool it o none none pool'
  unfolding unlink unlink_prev unlink_next load store
  unlink_only e = (
    store pool it (record { order = o; prev = none; next = none }),
    ground arith,
    record {
      others = λ q i. ground arith;
      loose = ground arith;
      capacity = refl;
      free_head = refl;
      in_use = refl;
    },
  )

  unlink_first :
      (r : ℕ) (k : Fast.Node)
      → (r == it) ≡ false
      → pool.slots it ≡ node o none (some r)
      → pool.slots r ≡ live k
      → (pool' : NodePool) × (unlink pool lv it
          ≡ some (pool', record lv { head = some r; count = decrement lv.count }))
        × IsUnlinked pool it o none (some r) pool'
  unfolding unlink unlink_prev unlink_next load store
  unlink_first r k d e f = (
    store (store pool r (record k { prev = none })) it
        (record { order = o; prev = none; next = none }),
    ground arith,
    record {
      others = λ q i. ground (arith, ap pool.slots);
      loose = ground arith;
      capacity = refl;
      free_head = refl;
      in_use = refl;
    },
  )

  unlink_last :
      (r : ℕ) (k : Fast.Node)
      → (r == it) ≡ false
      → pool.slots it ≡ node o (some r) none
      → pool.slots r ≡ live k
      → (pool' : NodePool) × (unlink pool lv it
          ≡ some (pool', record lv { tail = some r; count = decrement lv.count }))
        × IsUnlinked pool it o (some r) none pool'
  unfolding unlink unlink_prev unlink_next load store
  unlink_last r k d e f = (
    store (store pool r (record k { next = none })) it
        (record { order = o; prev = none; next = none }),
    ground arith,
    record {
      others = λ q i. ground (arith, ap pool.slots);
      loose = ground arith;
      capacity = refl;
      free_head = refl;
      in_use = refl;
    },
  )

  unlink_middle :
      (p r : ℕ) (j k : Fast.Node)
      → (p == it) ≡ false
      → (r == it) ≡ false
      → pool.slots it ≡ node o (some p) (some r)
      → pool.slots p ≡ live j
      → pool.slots r ≡ live k
      → (pool' : NodePool) × (unlink pool lv it
          ≡ some (pool', record lv { count = decrement lv.count }))
        × IsUnlinked pool it o (some p) (some r) pool'
  unfolding unlink unlink_prev unlink_next load store
  unlink_middle p r j k c d e f g =
      let k1 : Fast.Node = if p == r then record j { next = some r } else k in
      (
        store (store (store pool p (record j { next = some r })) r (record k1 { prev = some p })) it
            (record { order = o; prev = none; next = none }),
        ground arith,
        record {
          others = λ q i. ground (arith, ap pool.slots);
          loose = ground arith;
          capacity = refl;
          free_head = refl;
          in_use = refl;
        },
      )

-- A neighbour is another live node of the queue.
neighbour :
    (s : Slots) (it q : ℕ) (ns : Queue)
    → Cells s none ns
    → has q ns ≡ true
    → (k : Fast.Node) × (s q ≡ live k)
neighbour s it q ns c i =
    let (o, e) = has-find_node q ns i in
    (record { order = o; prev = prev_of q none ns; next = next_of q ns }, cell_at s q none ns o c e)

-- No node of a queue is linked to itself.
next_other :
    (s : Slots) (it q : ℕ) (prev : Option ℕ) (ns : Queue)
    → Cells s prev ns
    → next_of it ns ≡ some q
    → (q == it) ≡ false
next_other s it q prev [] c e = cc
next_other s it q prev (n ∷ []) c e = ground arith
next_other s it q prev (n ∷ m ∷ ns) c e = ground (arith, next_other s it q (some n.it) (m ∷ ns) c.2)

prev_other :
    (s : Slots) (it q : ℕ) (prev : Option ℕ) (ns : Queue)
    → Cells s prev ns
    → is_ptr prev it ≡ false
    → prev_of it prev ns ≡ some q
    → (q == it) ≡ false
prev_other s it q prev [] c d e = cc
prev_other s it q prev (n ∷ ns) c d e = ground (arith, prev_other s it q (some n.it) ns c.2)

abbrev unlinked_level : Fast.PriceLevel → Option ℕ → Option ℕ → Fast.PriceLevel
unlinked_level lv pv nx = record lv {
  head = elim pv [ none ↦ nx | some p ↦ lv.head ];
  tail = elim nx [ none ↦ pv | some r ↦ lv.tail ];
  count = decrement lv.count;
}

unlink_any :
    (pool : NodePool) (lv : Fast.PriceLevel) (it : ℕ) (o : Order) (ns : Queue) (pv nx : Option ℕ)
    → Cells pool.slots none ns
    → find_node it ns ≡ some o
    → prev_of it none ns ≡ pv
    → next_of it ns ≡ nx
    → (pool' : NodePool) × (unlink pool lv it ≡ some (pool', unlinked_level lv pv nx))
      × IsUnlinked pool it o pv nx pool'
unlink_any pool lv it o ns none none c f e g =
    unlink_only pool lv it o (ground (arith, cell_at pool.slots it none ns o c f))
unlink_any pool lv it o ns none (some r) c f e g =
    let (k, there) = neighbour pool.slots it r ns c (next_in it ns r g) in
    unlink_first pool lv it o r k (next_other pool.slots it r none ns c g)
      (ground (arith, cell_at pool.slots it none ns o c f)) there
unlink_any pool lv it o ns (some p) none c f e g =
    let (k, there) = neighbour pool.slots it p ns c (prev_in it none ns p e) in
    unlink_last pool lv it o p k (prev_other pool.slots it p none ns c refl e)
      (ground (arith, cell_at pool.slots it none ns o c f)) there
unlink_any pool lv it o ns (some p) (some r) c f e g =
    let (j, here) = neighbour pool.slots it p ns c (prev_in it none ns p e) in
    let (k, there) = neighbour pool.slots it r ns c (next_in it ns r g) in
    unlink_middle pool lv it o p r j k (prev_other pool.slots it p none ns c refl e)
      (next_other pool.slots it r none ns c g) (ground (arith, cell_at pool.slots it none ns o c f))
      here there

prev_some : (it p : ℕ) (ns : Queue) → has it ns ≡ true → (q : ℕ) × (prev_of it (some p) ns ≡ some q)
prev_some it p [] h = absurd cc
prev_some it p (n ∷ ns) h = elim (Bool-cases (n.it == it)) [
  | inl t ↦ rw t (p, refl)
  | inr t ↦ rw t (prev_some it n.it ns (ground arith))
]

unlinked-head :
    (it : ℕ) (ns : Queue)
    → has it ns ≡ true
    → elim (prev_of it none ns) [ none ↦ next_of it ns | some p ↦ head_of ns ]
      ≡ head_of (erase_node it ns)
unlinked-head it [] h = cc
unlinked-head it (n ∷ ns) h = elim (Bool-cases (n.it == it)) [
  | inl t ↦ ground (arith, erase_node-head it (n ∷ ns))
  | inr t ↦
      let (q, e) = prev_some it n.it ns (ground arith) in
      ground (arith, erase_node-head it (n ∷ ns))
]

-- `Unlink` of a node of the level's queue returns; the level and the slots then hold the queue without
-- it, the node is loose, and no slot but those of its neighbours has changed.
pub unlink-IsUnlinked :
    (pool : NodePool) (l : Naive.PriceLevel) (it : ℕ) (o : Order)
    → Cells pool.slots none l.orders
    → find_node it l.orders ≡ some o
    → let left = erase_node it l.orders in
      (pool' : NodePool) × (unlink pool (level_of l) it
        ≡ some (pool', level_of (record l { orders = left })))
      × IsUnlinked pool it o (prev_of it none l.orders) (next_of it l.orders) pool'
      × Cells pool'.slots none left
unlink-IsUnlinked pool l it o c f =
    let pv = prev_of it none l.orders in
    let nx = next_of it l.orders in
    let i = find_node-has it l.orders o f in
    let (pool', done, k) = unlink_any pool (level_of l) it o l.orders pv nx c f refl refl in
    let same : unlinked_level (level_of l) pv nx
        ≡ level_of (record l { orders = erase_node it l.orders }) =
      ground (
        arith,
        unlinked-head it l.orders i,
        erase_node-last it none l.orders i,
        erase_node-length it l.orders i,
      ) in
    (
      pool',
      done ∙ ap (λ x. some (pool', x)) same,
      k,
      Cells-erase_node pool.slots pool'.slots it none l.orders c i refl k.others,
    )
