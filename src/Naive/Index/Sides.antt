-- ===== src/Naive/Index/Sides.antt =====
-- Where an indexed order is after a side of the book changed.
use order_book_matching_engi.Common.{
  ℕ, ◌+◌, ◌<◌, ◌≡◌, ◌≢◌, refl, ap, Bool, true, is_empty, some, Option-cases, Bool-cases, inl, inr,
  List, [], ◌∷◌, All, All-map, All-append, arith,
}
use order_book_matching_engi.Common.Int.{eqb_ℤ, eqb_ℤ→eq}
use order_book_matching_engi.Common.Words.{sub64}
use order_book_matching_engi.Types.{Price, Quantity}
use order_book_matching_engi.Levels.{Levels, find, upsert}
use order_book_matching_engi.Levels.Laws.{
  IsSorted, find-upsert, find-erase, find_or, upsert-All, erase-All, All-find,
}
use order_book_matching_engi.Naive.{Node, PriceLevel, fresh_level}
use order_book_matching_engi.Naive.Operations.{push_order, erase_node, shrink_level}
use order_book_matching_engi.Naive.Amend.{resize_node}
use order_book_matching_engi.Naive.Index.{id_at, id_in, id_at_front, id_at_back, AreBelow}

-- One order more.
pub id_in-push :
    (bids : Bool) (p q : Price) (n : Node) (it id : ℕ) (ls : Levels PriceLevel)
    → IsSorted bids ls
    → id_in q it ls ≡ some id
    → id_in q it (upsert bids fresh_level (push_order p n) p ls) ≡ some id
unfolding id_in
id_in-push bids p q n it id ls s e = elim (Bool-cases (eqb_ℤ p q)) [
  | inl t ↦
      let same : p ≡ q = eqb_ℤ→eq p q t in
      ground (
        arith,
        find-upsert bids fresh_level (push_order p n) p q ls s,
        id_at_front (find_or fresh_level p ls).orders n id it,
        ap (λ r. find r ls) same,
      )
  | inr t ↦ ground (arith, find-upsert bids fresh_level (push_order p n) p q ls s)
]

find_or_below :
    (k : ℕ) (p : Price) (ls : Levels PriceLevel)
    → AreBelow k ls
    → All (λ n. n.it < k) (find_or fresh_level p ls).orders
find_or_below k p ls h = elim (Option-cases (find p ls)) [
  | inl e ↦ rw (e, find_or, All) tt
  | inr (l, e) ↦ rw (e, find_or, All) (All-find (λ _ v. All (λ n. n.it < k) v.orders) p ls l h e)
]

pub eqb_ℤ_refl : (p : Price) → eqb_ℤ p p ≡ true
eqb_ℤ_refl p = ground arith

pub id_in-pushed :
    (bids : Bool) (p : Price) (n : Node) (ls : Levels PriceLevel)
    → IsSorted bids ls
    → AreBelow n.it ls
    → id_in p n.it (upsert bids fresh_level (push_order p n) p ls) ≡ some n.order.id
unfolding id_in
id_in-pushed bids p n ls s h = ground (
  arith,
  find-upsert bids fresh_level (push_order p n) p p ls s,
  eqb_ℤ_refl p,
  id_at_back (find_or fresh_level p ls).orders n (find_or_below n.it p ls h),
)

-- One order less.
id_at-erase_node :
    (ns : List Node) (it it' id id' : ℕ)
    → id_at it ns ≡ some id
    → id_at it' ns ≡ some id'
    → id ≢ id'
    → id_at it (erase_node it' ns) ≡ some id
unfolding erase_node
id_at-erase_node [] it it' id id' e f h = cc
id_at-erase_node (n ∷ ns) it it' id id' e f h = ground (arith, id_at-erase_node ns it it' id id')

pub id_in-shrink_level :
    (bids : Bool) (p q : Price) (l : PriceLevel) (it it' id id' : ℕ) (quantity : Quantity)
    (ls : Levels PriceLevel)
    → IsSorted bids ls
    → find p ls ≡ some l
    → id_at it' l.orders ≡ some id'
    → id_in q it ls ≡ some id
    → id ≢ id'
    → id_in q it (shrink_level bids p l it' quantity ls) ≡ some id
unfolding id_in shrink_level
id_in-shrink_level bids p q l it it' id id' quantity ls s e f g h = elim (Bool-cases (eqb_ℤ p q)) [
  | inl t ↦
      let same : p ≡ q = eqb_ℤ→eq p q t in
      ground (
        arith,
        find-upsert bids fresh_level
            (λ _. record l {
              total_quantity = sub64 l.total_quantity quantity;
              orders = erase_node it' l.orders;
            })
            p q ls s,
        id_at-erase_node l.orders it it' id id',
        ap (λ r. find r ls) same,
      )
  | inr t ↦ ground (
    arith,
    find-upsert bids fresh_level
        (λ _. record l {
          total_quantity = sub64 l.total_quantity quantity;
          orders = erase_node it' l.orders;
        })
        p q ls s,
    find-erase bids p q ls s,
  )
]

-- An order of another size.
id_at-resize_node :
    (ns : List Node) (it it' : ℕ) (r q : Quantity) → id_at it (resize_node it' r q ns) ≡ id_at it ns
unfolding resize_node
id_at-resize_node [] it it' r q = refl
id_at-resize_node (n ∷ ns) it it' r q = ground (arith, id_at-resize_node ns it it' r q)

pub id_in-resize :
    (bids : Bool) (p q : Price) (it it' id : ℕ) (delta r size : Quantity) (ls : Levels PriceLevel)
    → IsSorted bids ls
    → id_in q it ls ≡ some id
    → id_in q it (
        upsert bids fresh_level
          (λ l. record l {
            total_quantity = sub64 l.total_quantity delta;
            orders = resize_node it' r size l.orders;
          })
          p
          ls)
      ≡ some id
unfolding id_in
id_in-resize bids p q it it' id delta r size ls s e = elim (Bool-cases (eqb_ℤ p q)) [
  | inl t ↦
      let same : p ≡ q = eqb_ℤ→eq p q t in
      ground (
        arith,
        find-upsert bids fresh_level
            (λ l. record l {
              total_quantity = sub64 l.total_quantity delta;
              orders = resize_node it' r size l.orders;
            })
            p q ls s,
        id_at-resize_node (find_or fresh_level p ls).orders it it' r size,
        ap (λ x. find x ls) same,
      )
  | inr t ↦ ground (
    arith,
    find-upsert bids fresh_level
        (λ l. record l {
          total_quantity = sub64 l.total_quantity delta;
          orders = resize_node it' r size l.orders;
        })
        p q ls s,
  )
]

-- The addresses stay below the next one.
pub AreBelow-push :
    (k : ℕ) (bids : Bool) (p : Price) (n : Node) (ls : Levels PriceLevel)
    → n.it < k
    → AreBelow k ls
    → AreBelow k (upsert bids fresh_level (push_order p n) p ls)
AreBelow-push k bids p n ls h b =
    upsert-All (λ _ v. All (λ m. m.it < k) v.orders) bids fresh_level (push_order p n) p ls (h, tt)
      (λ v c. All-append (λ m. m.it < k) v.orders (n ∷ []) c (h, tt)) b

nodes_suc : (k : ℕ) (ns : List Node) → All (λ n. n.it < k) ns → All (λ n. n.it < k + 1) ns
nodes_suc k ns = All-map _ _ ns (λ n h. omega (arith, h))

pub AreBelow-suc : (k : ℕ) (ls : Levels PriceLevel) → AreBelow k ls → AreBelow (k + 1) ls
AreBelow-suc k ls = All-map _ _ ls (λ e. nodes_suc k e.1.orders)

erase_node_below :
    (k it : ℕ) (ns : List Node) → All (λ n. n.it < k) ns → All (λ n. n.it < k) (erase_node it ns)
unfolding erase_node
erase_node_below k it [] h = tt
erase_node_below k it (n ∷ ns) h = ground (arith, erase_node_below k it ns h.1)

pub AreBelow-shrink_level :
    (k : ℕ) (bids : Bool) (p : Price) (l : PriceLevel) (it : ℕ) (quantity : Quantity)
    (ls : Levels PriceLevel)
    → find p ls ≡ some l
    → AreBelow k ls
    → AreBelow k (shrink_level bids p l it quantity ls)
unfolding shrink_level
AreBelow-shrink_level k bids p l it quantity ls e h =
    let kept =
      erase_node_below k it l.orders (All-find (λ _ v. All (λ n. n.it < k) v.orders) p ls l h e) in
    elim (Bool-cases (is_empty (erase_node it l.orders))) [
      | inl t ↦ rw t (erase-All (λ _ v. All (λ n. n.it < k) v.orders) p ls h)
      | inr t ↦ rw t (
          upsert-All (λ _ v. All (λ n. n.it < k) v.orders) bids fresh_level _ p ls kept
            (λ _ _. kept) h)
    ]

resize_node_below :
    (k it : ℕ) (r q : Quantity) (ns : List Node)
    → All (λ n. n.it < k) ns
    → All (λ n. n.it < k) (resize_node it r q ns)
unfolding resize_node
resize_node_below k it r q [] h = tt
resize_node_below k it r q (n ∷ ns) h = ground (arith, resize_node_below k it r q ns h.1)

pub AreBelow-resize :
    (k : ℕ) (bids : Bool) (p : Price) (it : ℕ) (delta r size : Quantity) (ls : Levels PriceLevel)
    → AreBelow k ls
    → AreBelow k (
        upsert bids fresh_level
          (λ l. record l {
            total_quantity = sub64 l.total_quantity delta;
            orders = resize_node it r size l.orders;
          })
          p
          ls)
unfolding resize_node
AreBelow-resize k bids p it delta r size ls h =
    upsert-All (λ _ v. All (λ n. n.it < k) v.orders) bids fresh_level _ p ls tt
      (λ v c. resize_node_below k it r size v.orders c) h
