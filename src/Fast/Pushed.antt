-- ===== src/Fast/Pushed.antt =====
-- A side of the pooled book with one more order, in the slots of the pool.
use order_book_matching_engi.Common.{
  ℕ, suc, ◌≡◌, refl, sym, ap, ap₂, ◌∙◌, ◌==◌, Bool, true, false, ◌||◌, length-append, Bool-cases,
  inl, inr, none, some, [], ◌∷◌, arith,
}
use order_book_matching_engi.Common.Int.{eqb_ℤ}
use order_book_matching_engi.Types.{Price}
use order_book_matching_engi.Levels.{find, upsert, precedes}
use order_book_matching_engi.Levels.Laws.{IsSorted, find_before, precedes-All, find_or}
use order_book_matching_engi.Naive
use order_book_matching_engi.Naive.Operations.{push_order}
use order_book_matching_engi.Fast.Cells.{Slots, Queue, has, Cells, Cells-undisturbed}
use order_book_matching_engi.Fast.Pushing.{pushed, has-pushed}
use order_book_matching_engi.Fast.Queues.{
  BookSide, in_levels, nodes, AreApart, Queues, Queues-undisturbed, not_in_first,
}
use order_book_matching_engi.Fast.Removing.{apart}

abbrev pub found : Price → BookSide → Naive.PriceLevel
found p ls = find_or Naive.fresh_level p ls

abbrev pub side_with : Bool → Price → Naive.Node → BookSide → BookSide
side_with bids p n ls = upsert bids Naive.fresh_level (push_order p n) p ls

-- The level of a price behind the first one.
module _ (p r : Price) (l : Naive.PriceLevel) (ls : BookSide) where
  pub found_here : eqb_ℤ r p ≡ true → found p ((r, l) ∷ ls) ≡ l
  unfolding find
  found_here e = ground (arith, e)

  pub found_after : eqb_ℤ r p ≡ false → found p ((r, l) ∷ ls) ≡ found p ls
  unfolding find
  found_after e = ground (arith, e)

  module _ (bids : Bool) (n : Naive.Node) where
    upsert_here : eqb_ℤ r p ≡ true → side_with bids p n ((r, l) ∷ ls) ≡ (p, push_order p n l) ∷ ls
    unfolding upsert
    upsert_here e = rw e refl

    upsert_before :
        eqb_ℤ r p ≡ false
        → precedes bids p r ≡ true
        → side_with bids p n ((r, l) ∷ ls) ≡ (p, push_order p n Naive.fresh_level) ∷ (r, l) ∷ ls
    unfolding upsert
    upsert_before e t = rw (e, t) refl

    upsert_after :
        eqb_ℤ r p ≡ false
        → precedes bids p r ≡ false
        → side_with bids p n ((r, l) ∷ ls) ≡ (r, l) ∷ side_with bids p n ls
    unfolding upsert
    upsert_after e t = rw (e, t) refl

    found_before :
        IsSorted bids ((r, l) ∷ ls) → precedes bids p r ≡ true → found p ls ≡ Naive.fresh_level
    found_before h t =
        ap (λ x. elim x as (λ _. Naive.PriceLevel) [ none ↦ Naive.fresh_level | some v ↦ v ])
          (find_before bids p ls (precedes-All bids p r ls t h.0))

pub found-Cells :
    (s : Slots) (p : Price) (ls : BookSide) → Queues s ls → Cells s none (found p ls).orders
unfolding find
found-Cells s p [] h = tt
found-Cells s p ((q, l) ∷ ls) h = elim (Bool-cases (eqb_ℤ q p)) [
  | inl e ↦ rw (found_here p q l ls e) h.0
  | inr e ↦ rw (found_after p q l ls e) (found-Cells s p ls h.2)
]

pub found_in :
    (q : ℕ) (p : Price) (ls : BookSide) → in_levels q ls ≡ false → has q (found p ls).orders ≡ false
unfolding find
found_in q p [] h = refl
found_in q p ((r, l) ∷ ls) h = ground (arith, found_in q p ls)

pub in_levels-upsert :
    (bids : Bool) (p : Price) (n : Naive.Node) (q : ℕ) (ls : BookSide)
    → in_levels q (side_with bids p n ls) ≡ (in_levels q ls || (n.it == q))
unfolding upsert
in_levels-upsert bids p n q [] = ground arith
in_levels-upsert bids p n q ((r, l) ∷ ls) =
    ground (arith, in_levels-upsert bids p n q ls, has-pushed q l.orders n)

pub nodes-upsert :
    (bids : Bool) (p : Price) (n : Naive.Node) (ls : BookSide)
    → nodes (side_with bids p n ls) ≡ suc (nodes ls)
unfolding upsert
nodes-upsert bids p n [] = refl
nodes-upsert bids p n ((r, l) ∷ ls) =
    ground (arith, nodes-upsert bids p n ls, length-append l.orders (n ∷ []))

pushed-AreApart :
    (n : Naive.Node) (ns : Queue) (ls : BookSide)
    → AreApart ns ls
    → in_levels n.it ls ≡ false
    → AreApart (pushed ns n) ls
pushed-AreApart n ns ls h d q i = elim (Bool-cases (has q ns)) [
  | inl t ↦ h q t
  | inr t ↦
      let same : n.it ≡ q = ground (arith, has-pushed q ns n) in
      sym (ap (λ x. in_levels x ls) same) ∙ d
]

AreApart-upsert :
    (bids : Bool) (p : Price) (n : Naive.Node) (ns : Queue) (ls : BookSide)
    → AreApart ns ls
    → has n.it ns ≡ false
    → AreApart ns (side_with bids p n ls)
AreApart-upsert bids p n ns ls h d q i =
    in_levels-upsert bids p n q ls ∙ ap₂ (λ x y. x || y) (h q i) (apart n.it q ns d i)

pub Queues-upsert :
    (bids : Bool) (p : Price) (n : Naive.Node) (s s' : Slots) (ls : BookSide)
    → IsSorted bids ls
    → Queues s ls
    → in_levels n.it ls ≡ false
    → Cells s' none (pushed (found p ls).orders n)
    → ((q : ℕ) → in_levels q ls ≡ true → has q (found p ls).orders ≡ false → s' q ≡ s q)
    → Queues s' (side_with bids p n ls)
unfolding find upsert
Queues-upsert bids p n s s' [] sorted h d c same = (c, λ q i. refl, tt)
Queues-upsert bids p n s s' ((r, l) ∷ ls) sorted h d c same = elim (Bool-cases (eqb_ℤ r p)) [
  | inl e ↦
      let same' : (q : ℕ) → in_levels q ((r, l) ∷ ls) ≡ true → has q l.orders ≡ false → s' q ≡ s q =
        rw (found_here p r l ls e) at same in
      rw (upsert_here p r l ls bids n e) (
        rw (found_here p r l ls e) at c,
        pushed-AreApart n l.orders ls h.1 (ground arith),
        Queues-undisturbed s s' ls h.2
            (λ q i. same' q (ground arith) (not_in_first q l.orders ls h.1 i)),
      )
  | inr e ↦
      let c' : Cells s' none (pushed (found p ls).orders n) = rw (found_after p r l ls e) at c in
      let same' : (q : ℕ)
          → in_levels q ((r, l) ∷ ls) ≡ true
          → has q (found p ls).orders ≡ false
          → s' q ≡ s q =
        rw (found_after p r l ls e) at same in
      elim (Bool-cases (precedes bids p r)) [
        | inl t ↦
            let none_found = found_before p r l ls bids n sorted t in
            rw (upsert_before p r l ls bids n e t) (
              rw none_found at c',
              pushed-AreApart n [] ((r, l) ∷ ls) (λ q i. absurd cc) d,
              Queues-undisturbed s s' ((r, l) ∷ ls) h (λ q i. same' q i (rw none_found refl)),
            )
        | inr t ↦ rw (upsert_after p r l ls bids n e t) (
          Cells-undisturbed s s' none l.orders h.0
              (λ q i. same' q (ground arith) (found_in q p ls (h.1 q i))),
          AreApart-upsert bids p n l.orders ls h.1 (ground arith),
          Queues-upsert bids p n s s' ls sorted.1 h.2 (ground arith) c'
              (λ q i. same' q (ground arith)),
        )
      ]
]
