-- ===== src/Naive/Leaving.antt =====
-- How an order leaves a side's queue with `RemoveFromBook`.
use order_book_matching_engi.Common.{
  ℕ, ◌≡◌, refl, ap, ◌∙◌, sym, ◌==◌, Bool, is_empty, some, List, [], ◌∷◌, ◌++◌, Bool-cases, inl, inr,
}
use order_book_matching_engi.Common.Int.{eqb_ℤ}
use order_book_matching_engi.Types.{Price, Order}
use order_book_matching_engi.Levels.{Levels, precedes, find, upsert, erase}
use order_book_matching_engi.Levels.Laws.{IsSorted, find_before, precedes-All}
use order_book_matching_engi.Naive.{Node, PriceLevel, fresh_level, find_node, orders_of, queue}
use order_book_matching_engi.Naive.Matching.Priority.{orders_of-is_empty}
use order_book_matching_engi.Naive.Operations.{erase_node, shrink_level}

-- The order is taken out of the orders there were; the others stay in their order.
abbrev pub Leaves : Order → List Order → List Order → Type 0
Leaves o before after =
    (xs : List Order) × (ys : List Order) × (before ≡ xs ++ (o ∷ ys)) × (after ≡ xs ++ ys)

append_assoc : (xs ys zs : List Order) → (xs ++ ys) ++ zs ≡ xs ++ (ys ++ zs)
append_assoc [] ys zs = refl
append_assoc (x ∷ xs) ys zs = ap (λ k. x ∷ k) (append_assoc xs ys zs)

pub Leaves-before :
    (o : Order) (before after zs : List Order)
    → Leaves o before after
    → Leaves o (before ++ zs) (after ++ zs)
Leaves-before o before after zs (xs, ys, e, f) = (
  xs,
  ys ++ zs,
  ap (λ k. k ++ zs) e ∙ append_assoc xs (o ∷ ys) zs,
  ap (λ k. k ++ zs) f ∙ append_assoc xs ys zs,
)

pub Leaves-behind :
    (o : Order) (before after zs : List Order)
    → Leaves o before after
    → Leaves o (zs ++ before) (zs ++ after)
Leaves-behind o before after zs (xs, ys, e, f) = (
  zs ++ xs,
  ys,
  ap (λ k. zs ++ k) e ∙ sym (append_assoc zs xs (o ∷ ys)),
  ap (λ k. zs ++ k) f ∙ sym (append_assoc zs xs ys),
)

Leaves-erase_node :
    (it : ℕ) (o : Order) (ns : List Node)
    → find_node it ns ≡ some o
    → Leaves o (orders_of ns) (orders_of (erase_node it ns))
unfolding find_node erase_node
Leaves-erase_node it o [] e = absurd (cc e)
Leaves-erase_node it o (n ∷ ns) e = elim (Bool-cases (n.it == it)) [
  | inl t ↦
      let same : n.order ≡ o = cc (rw t at e) in
      rw t ([], orders_of ns, ap (λ k. k ∷ orders_of ns) same, refl)
  | inr t ↦ rw t (
      Leaves-behind o (orders_of ns) (orders_of (erase_node it ns)) (n.order ∷ [])
        (Leaves-erase_node it o ns (rw t at e)))
]

module _ (p : Price) (l : PriceLevel) (o : Order) where
  Leaves-erase :
      (ls : Levels PriceLevel)
      → find p ls ≡ some l
      → Leaves o (orders_of l.orders) []
      → Leaves o (queue ls) (queue (erase p ls))
  unfolding find erase
  Leaves-erase [] e h = absurd (cc e)
  Leaves-erase ((q, m) ∷ ls) e h = elim (Bool-cases (eqb_ℤ q p)) [
    | inl t ↦
        let same : m ≡ l = cc (rw t at e) in
        rw (t, same) (Leaves-before o (orders_of l.orders) [] (queue ls) h)
    | inr t ↦ rw t (
        Leaves-behind o (queue ls) (queue (erase p ls)) (orders_of m.orders)
          (Leaves-erase ls (rw t at e) h))
  ]

  Leaves-upsert :
      (bids : Bool) (l' : PriceLevel) (ls : Levels PriceLevel)
      → IsSorted bids ls
      → find p ls ≡ some l
      → Leaves o (orders_of l.orders) (orders_of l'.orders)
      → Leaves o (queue ls) (queue (upsert bids fresh_level (λ _. l') p ls))
  unfolding find upsert
  Leaves-upsert bids l' [] s e h = absurd (cc e)
  Leaves-upsert bids l' ((q, m) ∷ ls) s e h = elim (Bool-cases (eqb_ℤ q p)) [
    | inl t ↦
        let same : m ≡ l = cc (rw t at e) in
        rw (t, same) (Leaves-before o (orders_of l.orders) (orders_of l'.orders) (queue ls) h)
    | inr t ↦
        let below : find p ls ≡ some l = rw t at e in
        rw t (elim (Bool-cases (precedes bids p q)) [
          | inl b ↦ absurd (cc (below, find_before bids p ls (precedes-All bids p q ls b s.0)))
          | inr b ↦ rw b (
              Leaves-behind o (queue ls) (queue (upsert bids fresh_level (λ _. l') p ls))
                (orders_of m.orders) (Leaves-upsert bids l' ls s.1 below h))
        ])
  ]

  -- `RemoveFromBook` takes one order out of its side's queue, also when that was its level's last.
  pub Leaves-shrink_level :
      (bids : Bool) (it quantity : ℕ) (ls : Levels PriceLevel)
      → IsSorted bids ls
      → find p ls ≡ some l
      → find_node it l.orders ≡ some o
      → Leaves o (queue ls) (queue (shrink_level bids p l it quantity ls))
  unfolding shrink_level
  Leaves-shrink_level bids it quantity ls s e f =
      let left : List Node = erase_node it l.orders in
      let h : Leaves o (orders_of l.orders) (orders_of left) = Leaves-erase_node it o l.orders f in
      elim (Bool-cases (is_empty left)) [
        | inl t ↦ rw t (Leaves-erase ls e (rw (orders_of-is_empty left t) at h))
        | inr t ↦ rw t (Leaves-upsert bids _ ls s e h)
      ]
