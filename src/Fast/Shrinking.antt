-- ===== src/Fast/Shrinking.antt =====
-- A side of the pooled book with one level changed or, when that is empty, gone.
use order_book_matching_engi.Common.{
  ℕ, ◌+◌, ◌≡◌, refl, ap, subst, ◌==◌, Bool, true, false, ◌||◌, is_empty, length, if◌then◌else◌,
  Bool-cases, inl, inr, none, some, [], ◌∷◌, arith,
}
use order_book_matching_engi.Common.Int.{eqb_ℤ}
use order_book_matching_engi.Types.{Price}
use order_book_matching_engi.Levels.{find, upsert, erase, precedes}
use order_book_matching_engi.Levels.Laws.{IsSorted, find_before, precedes-All}
use order_book_matching_engi.Naive
use order_book_matching_engi.Fast
use order_book_matching_engi.Fast.Cells.{Slots, Queue, has, Cells, level_of, Cells-undisturbed}
use order_book_matching_engi.Fast.Queues.{
  BookSide, levels_of, in_levels, nodes, AreApart, Queues, Queues-undisturbed, not_in_first,
}
use order_book_matching_engi.Fast.Image.{erase-levels_of}
use order_book_matching_engi.Fast.Outer.{is_empty-length}

abbrev pub shrunk : Bool → Price → Naive.PriceLevel → BookSide → BookSide
shrunk bids p v ls =
    if is_empty v.orders then erase p ls else upsert bids Naive.fresh_level (λ _. v) p ls

upsert_value-levels_of :
    (bids : Bool) (p : Price) (v : Naive.PriceLevel) (ls : BookSide)
    → upsert bids Fast.fresh_level (λ _. level_of v) p (levels_of ls)
      ≡ levels_of (upsert bids Naive.fresh_level (λ _. v) p ls)
unfolding upsert
upsert_value-levels_of bids p v [] = refl
upsert_value-levels_of bids p v ((q, l) ∷ ls) = ground (arith, upsert_value-levels_of bids p v ls)

pub shrunk-levels_of :
    (bids : Bool) (p : Price) (v : Naive.PriceLevel) (ls : BookSide)
    → (if length v.orders == 0
        then erase p (levels_of ls)
        else upsert bids Fast.fresh_level (λ _. level_of v) p (levels_of ls))
      ≡ levels_of (shrunk bids p v ls)
shrunk-levels_of bids p v ls =
    rw (upsert_value-levels_of bids p v ls, erase-levels_of p ls) (branches v.orders)
  where
    branches :
        (ns : Queue)
        → (if length ns == 0
            then levels_of (erase p ls)
            else levels_of (upsert bids Naive.fresh_level (λ _. v) p ls))
          ≡ levels_of
              (if is_empty ns then erase p ls else upsert bids Naive.fresh_level (λ _. v) p ls)
    branches [] = refl
    branches (n ∷ ns) = ground arith

module _ (bids : Bool) (p r : Price) (v l : Naive.PriceLevel) (ls : BookSide) where
  shrunk_here :
      eqb_ℤ r p ≡ true
      → shrunk bids p v ((r, l) ∷ ls) ≡ (if is_empty v.orders then ls else (p, v) ∷ ls)
  unfolding erase upsert
  shrunk_here e = rw e refl

  shrunk_after :
      (m : Naive.PriceLevel)
      → eqb_ℤ r p ≡ false
      → find p ls ≡ some m
      → IsSorted bids ((r, l) ∷ ls)
      → shrunk bids p v ((r, l) ∷ ls) ≡ (r, l) ∷ shrunk bids p v ls
  unfolding erase upsert
  shrunk_after m e f h = elim (Bool-cases (precedes bids p r)) [
    | inl t ↦ absurd (cc (f, find_before bids p ls (precedes-All bids p r ls t h.0)))
    | inr t ↦ ground (arith, e, t)
  ]

  found_there :
      (m : Naive.PriceLevel)
      → eqb_ℤ r p ≡ false
      → find p ((r, l) ∷ ls) ≡ some m
      → find p ls ≡ some m
  unfolding find
  found_there m e f = rw e at f

  found_here : (m : Naive.PriceLevel) → eqb_ℤ r p ≡ true → find p ((r, l) ∷ ls) ≡ some m → l ≡ m
  unfolding find
  found_here m e f = ground (arith, e, f)

-- The queue found is in the side.
pub found_within :
    (p : Price) (l : Naive.PriceLevel) (q : ℕ) (ls : BookSide)
    → find p ls ≡ some l
    → has q l.orders ≡ true
    → in_levels q ls ≡ true
unfolding find
found_within p l q [] f i = absurd cc
found_within p l q ((r, m) ∷ ls) f i = elim (Bool-cases (eqb_ℤ r p)) [
  | inl e ↦
      let same = found_here true p r m m ls l e f in ground (arith, ap (λ x. has q x.orders) same)
  | inr e ↦ ground (arith, found_within p l q ls (found_there true p r m m ls l e f) i)
]

pub not_found :
    (p : Price) (l : Naive.PriceLevel) (q : ℕ) (ls : BookSide)
    → find p ls ≡ some l
    → in_levels q ls ≡ false
    → has q l.orders ≡ false
not_found p l q ls f d = elim (Bool-cases (has q l.orders)) [
  | inl t ↦ absurd (cc (found_within p l q ls f t, d))
  | inr t ↦ t
]

pub Queues-found :
    (s : Slots) (p : Price) (l : Naive.PriceLevel) (ls : BookSide)
    → Queues s ls
    → find p ls ≡ some l
    → Cells s none l.orders
unfolding find
Queues-found s p l [] h f = absurd cc
Queues-found s p l ((r, m) ∷ ls) h f = elim (Bool-cases (eqb_ℤ r p)) [
  | inl e ↦ subst (λ x. Cells s none x.orders) (found_here true p r m m ls l e f) h.0
  | inr e ↦ Queues-found s p l ls h.2 (found_there true p r m m ls l e f)
]

abbrev pub kept : Price → Naive.PriceLevel → BookSide → BookSide
kept p v ls = if is_empty v.orders then ls else (p, v) ∷ ls

is_empty-has : (q : ℕ) (ns : Queue) → is_empty ns ≡ true → has q ns ≡ false
is_empty-has q [] e = refl
is_empty-has q (n ∷ ns) e = absurd cc

in_kept :
    (p : Price) (v : Naive.PriceLevel) (q : ℕ) (ls : BookSide)
    → in_levels q (kept p v ls) ≡ (has q v.orders || in_levels q ls)
in_kept p v q ls = elim (Bool-cases (is_empty v.orders)) [
  | inl e ↦ rw e (ground (arith, is_empty-has q v.orders e))
  | inr e ↦ rw e refl
]

nodes-kept :
    (p : Price) (v : Naive.PriceLevel) (ls : BookSide)
    → nodes (kept p v ls) ≡ length v.orders + nodes ls
nodes-kept p v ls = elim (Bool-cases (is_empty v.orders)) [
  | inl e ↦ rw e (omega (arith, is_empty-length v.orders e))
  | inr e ↦ rw e refl
]

module _ (bids : Bool) (p : Price) (l v : Naive.PriceLevel)
    (within : (q : ℕ) → has q l.orders ≡ false → has q v.orders ≡ false) where
  pub in_shrunk :
      (q : ℕ) (ls : BookSide)
      → IsSorted bids ls
      → find p ls ≡ some l
      → in_levels q ls ≡ false
      → in_levels q (shrunk bids p v ls) ≡ false
  unfolding find
  in_shrunk q [] h f d = absurd cc
  in_shrunk q ((r, m) ∷ ls) h f d = elim (Bool-cases (eqb_ℤ r p)) [
    | inl e ↦
        let gone : has q l.orders ≡ false =
          ground (arith, ap (λ x. has q x.orders) (found_here bids p r v m ls l e f)) in
        rw (shrunk_here bids p r v m ls e) (ground (arith, in_kept p v q ls, within q gone))
    | inr e ↦
        let f' = found_there bids p r v m ls l e f in
        rw (shrunk_after bids p r v m ls l e f' h) (ground (arith, in_shrunk q ls h.1 f'))
  ]

  pub was_in :
      (q : ℕ) (ls : BookSide)
      → IsSorted bids ls
      → find p ls ≡ some l
      → in_levels q (shrunk bids p v ls) ≡ true
      → in_levels q ls ≡ true
  was_in q ls h f i = elim (Bool-cases (in_levels q ls)) [
    | inl t ↦ t
    | inr t ↦ absurd (cc (in_shrunk q ls h f t, i))
  ]

  pub nodes-shrunk :
      (ls : BookSide)
      → IsSorted bids ls
      → find p ls ≡ some l
      → nodes (shrunk bids p v ls) + length l.orders ≡ nodes ls + length v.orders
  unfolding find
  nodes-shrunk [] h f = absurd cc
  nodes-shrunk ((r, m) ∷ ls) h f = elim (Bool-cases (eqb_ℤ r p)) [
    | inl e ↦
        let same = ap (λ x. length x.orders) (found_here bids p r v m ls l e f) in
        rw (shrunk_here bids p r v m ls e) (omega (arith, nodes-kept p v ls, same))
    | inr e ↦
        let f' = found_there bids p r v m ls l e f in
        rw (shrunk_after bids p r v m ls l e f' h) (omega (arith, nodes-shrunk ls h.1 f'))
  ]

  pub Queues-shrunk :
      (s s' : Slots) (ls : BookSide)
      → IsSorted bids ls
      → find p ls ≡ some l
      → Queues s ls
      → Cells s' none v.orders
      → ((q : ℕ) → in_levels q ls ≡ true → has q l.orders ≡ false → s' q ≡ s q)
      → Queues s' (shrunk bids p v ls)
  unfolding find
  Queues-shrunk s s' [] h f c d same = absurd cc
  Queues-shrunk s s' ((r, m) ∷ ls) h f c d same = elim (Bool-cases (eqb_ℤ r p)) [
    | inl e ↦
        let t = found_here bids p r v m ls l e f in
        let apart : AreApart l.orders ls = subst (λ x. AreApart x.orders ls) t c.1 in
        rw (shrunk_here bids p r v m ls e) (
          Queues-kept s' v ls d (λ q i. apart q (inside q i))
            (Queues-undisturbed s s' ls c.2
              (λ q i. same q (ground arith) (not_in_first q l.orders ls apart i))))
    | inr e ↦
        let f' = found_there bids p r v m ls l e f in
        rw (shrunk_after bids p r v m ls l e f' h) (
          Cells-undisturbed s s' none m.orders c.0
              (λ q i. same q (ground arith) (not_found p l q ls f' (c.1 q i))),
          λ q i. in_shrunk q ls h.1 f' (c.1 q i),
          Queues-shrunk s s' ls h.1 f' c.2 d (λ q i. same q (ground arith)),
        )
  ]
    where
      inside : (q : ℕ) → has q v.orders ≡ true → has q l.orders ≡ true
      inside q i = elim (Bool-cases (has q l.orders)) [
        | inl t ↦ t
        | inr t ↦ absurd (cc (within q t, i))
      ]

      Queues-kept :
          (s : Slots) (v : Naive.PriceLevel) (ls : BookSide)
          → Cells s none v.orders
          → AreApart v.orders ls
          → Queues s ls
          → Queues s (kept p v ls)
      Queues-kept s v ls c a h = elim (Bool-cases (is_empty v.orders)) [
        | inl e ↦ rw e h
        | inr e ↦ rw e (c, a, h)
      ]
