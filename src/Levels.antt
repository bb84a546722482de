-- ===== src/Levels.antt =====
-- A `std::map<Price, V>` as the list of its entries in iteration order: `std::greater` keeps the
-- highest price first (bids), `std::less` the lowest (asks). `find`, `operator[]` and `erase`.
pub mod Laws
use order_book_matching_engi.Common.{
  ℕ, Bool, true, false, if◌then◌else◌, Option, none, some, List, [], ◌∷◌,
}
use order_book_matching_engi.Common.Int.{ltb_ℤ, eqb_ℤ}
use order_book_matching_engi.Types.{Price}

abbrev pub Levels {ℓ} : Type ℓ → Type ℓ
Levels V = List (Price × V)

-- The map's comparison, for the bids or the asks.
abbrev pub precedes : Bool → Price → Price → Bool
precedes bids p q = if bids then ltb_ℤ q p else ltb_ℤ p q

module _ {ℓ} {V : Type ℓ} where
  unfoldable pub find : Price → Levels V → Option V
  find p [] = none
  find p ((q, v) ∷ ls) = if eqb_ℤ q p then some v else find p ls

  -- `f(map[p])`: a missing key is first given the value `fresh`, at its place in the order.
  unfoldable pub upsert : Bool → V → (V → V) → Price → Levels V → Levels V
  upsert bids fresh f p [] = (p, f fresh) ∷ []
  upsert bids fresh f p ((q, v) ∷ ls) =
      if eqb_ℤ q p
      then (p, f v) ∷ ls
      else if precedes bids p q
      then (p, f fresh) ∷ (q, v) ∷ ls
      else (q, v) ∷ upsert bids fresh f p ls

  unfoldable pub erase : Price → Levels V → Levels V
  erase p [] = []
  erase p ((q, v) ∷ ls) = if eqb_ℤ q p then ls else (q, v) ∷ erase p ls
