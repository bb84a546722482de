-- ===== src/Fast/Links.antt =====
-- `PushBack` and `Unlink` of the pooled book's levels, include/matching_engine/fast/order_book.hpp.
use order_book_matching_engi.Common.{ℕ, ◌+◌, Option, none, some, ◌>>=◌}
use order_book_matching_engi.Pool.{decrement, load, store}
use order_book_matching_engi.Fast.{Node, PriceLevel, NodePool}

-- `PushBack`, in the order of its assignments.
unfoldable pub push_back : NodePool → PriceLevel → ℕ → Option (NodePool × PriceLevel)
push_back pool l p = do
  n ← load pool p
  let pool1 = store pool p (record n { prev = l.tail; next = none })
  elim l.tail [
    | none ↦ some (pool1, record l { head = some p; tail = some p; count = l.count + 1 })
    | some t ↦ do
      m ← load pool1 t
      some (
        store pool1 t (record m { next = some p }),
        record l { tail = some p; count = l.count + 1 },
      )
  ]

-- The first assignment of `Unlink`, `n->prev->next = n->next` or `head = n->next`.
unfoldable pub unlink_prev : NodePool → PriceLevel → Node → Option (NodePool × PriceLevel)
unlink_prev pool l n = elim n.prev [
  | none ↦ some (pool, record l { head = n.next })
  | some q ↦ do m ← load pool q; some (store pool q (record m { next = n.next }), l)
]

-- The second, `n->next->prev = n->prev` or `tail = n->prev`.
unfoldable pub unlink_next : NodePool → PriceLevel → Node → Option (NodePool × PriceLevel)
unlink_next pool l n = elim n.next [
  | none ↦ some (pool, record l { tail = n.prev })
  | some q ↦ do m ← load pool q; some (store pool q (record m { prev = n.prev }), l)
]

unfoldable pub unlink : NodePool → PriceLevel → ℕ → Option (NodePool × PriceLevel)
unlink pool l p = do
  n ← load pool p
  (pool1, l1) ← unlink_prev pool l n
  n1 ← load pool1 p
  (pool2, l2) ← unlink_next pool1 l1 n1
  n2 ← load pool2 p
  some (
    store pool2 p (record n2 { prev = none; next = none }),
    record l2 { count = decrement l2.count },
  )
