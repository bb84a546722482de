-- ===== src/Fast/Queues.antt =====
-- The queues of a side's levels in the slots of the pool, no slot in two of them.
use order_book_matching_engi.Common.{
  ℕ, ◌+◌, ◌≡◌, Bool, true, false, ◌||◌, length, Bool-cases, inl, inr, none, [], ◌∷◌, arith,
}
use order_book_matching_engi.Levels.{Levels}
use order_book_matching_engi.Naive
use order_book_matching_engi.Fast
use order_book_matching_engi.Fast.Cells.{Slots, Queue, has, Cells, level_of, Cells-undisturbed}

abbrev pub BookSide : Type 0
BookSide = Levels Naive.PriceLevel

-- The pooled levels of the levels of the reference book.
abbrev pub levels_of : BookSide → Levels Fast.PriceLevel
levels_of [] = []
levels_of ((p, l) ∷ ls) = (p, level_of l) ∷ levels_of ls

abbrev pub in_levels : ℕ → BookSide → Bool
in_levels q [] = false
in_levels q ((p, l) ∷ ls) = has q l.orders || in_levels q ls

abbrev pub nodes : BookSide → ℕ
nodes [] = 0
nodes ((p, l) ∷ ls) = length l.orders + nodes ls

-- No address is in both.
abbrev pub AreApart : Queue → BookSide → Type 0
AreApart ns ls = (q : ℕ) → has q ns ≡ true → in_levels q ls ≡ false

abbrev pub Queues : Slots → BookSide → Type 0
Queues s [] = Unit
Queues s ((p, l) ∷ ls) = Cells s none l.orders × AreApart l.orders ls × Queues s ls

pub Queues-undisturbed :
    (s s' : Slots) (ls : BookSide)
    → Queues s ls
    → ((q : ℕ) → in_levels q ls ≡ true → s' q ≡ s q)
    → Queues s' ls
Queues-undisturbed s s' [] h same = tt
Queues-undisturbed s s' ((p, l) ∷ ls) h same = (
  Cells-undisturbed s s' none l.orders h.0 (λ q i. same q (ground arith)),
  h.1,
  Queues-undisturbed s s' ls h.2 (λ q i. same q (ground arith)),
)

-- An address of a later level is in no earlier one.
pub not_in_first :
    (q : ℕ) (ns : Queue) (ls : BookSide) → AreApart ns ls → in_levels q ls ≡ true → has q ns ≡ false
not_in_first q ns ls h i = elim (Bool-cases (has q ns)) [
  | inl t ↦ absurd (cc (h q t, i))
  | inr t ↦ t
]
