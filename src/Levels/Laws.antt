-- ===== src/Levels/Laws.antt =====
-- Laws of the ordered map: what `find` sees after `upsert` and `erase`, and that both keep the
-- order and any property of all entries.
use order_book_matching_engi.Common.{
  ◌≡◌, refl, sym, ◌∙◌, subst, subst₂, Bool, true, false, none, some, [], ◌∷◌, All, arith,
  if◌then◌else◌, Bool-cases, inl, inr,
}
use order_book_matching_engi.Common.Int.{eqb_ℤ, eqb_ℤ→eq}
use order_book_matching_engi.Types.{Price}
use order_book_matching_engi.Levels.{Levels, precedes, find, upsert, erase}

-- A price before every key.
abbrev pub Precede {ℓ} : {V : Type ℓ} → Bool → Price → Levels V → Type 0
Precede bids p ls = All (λ e. precedes bids p e.0 ≡ true) ls

-- Strictly in the map's order, each entry before all behind it.
abbrev pub IsSorted {ℓ} : {V : Type ℓ} → Bool → Levels V → Type 0
IsSorted bids [] = Unit
IsSorted bids ((p, v) ∷ ls) = All (λ e. precedes bids p e.0 ≡ true) ls × IsSorted bids ls

precedes_trans :
    (bids : Bool) (p q r : Price)
    → precedes bids p q ≡ true
    → precedes bids q r ≡ true
    → precedes bids p r ≡ true
precedes_trans bids p q r h k = ground arith

precedes_cases :
    (bids : Bool) (p q : Price)
    → eqb_ℤ q p ≡ false
    → precedes bids p q ≡ false
    → precedes bids q p ≡ true
precedes_cases bids p q e h = ground arith

module _ {ℓ} {V : Type ℓ} where
  pub upsert-All {κ} :
      (P : Price → V → Type κ) (bids : Bool) (fresh : V) (f : V → V) (p : Price) (ls : Levels V)
      → P p (f fresh)
      → ((v : V) → P p v → P p (f v))
      → All (λ e. P e.0 e.1) ls
      → All (λ e. P e.0 e.1) (upsert bids fresh f p ls)
  unfolding upsert
  upsert-All P bids fresh f p [] new keep h = (new, tt)
  upsert-All P bids fresh f p ((q, v) ∷ ls) new keep h = elim (Bool-cases (eqb_ℤ q p)) [
    | inl e ↦ rw e (keep v (subst (λ k. P k v) (eqb_ℤ→eq q p e) h.0), h.1)
    | inr e ↦ rw e (elim (Bool-cases (precedes bids p q)) [
      | inl b ↦ rw b (new, h)
      | inr b ↦ rw b (h.0, upsert-All P bids fresh f p ls new keep h.1)
    ])
  ]

  pub erase-All {κ} :
      (P : Price → V → Type κ) (p : Price) (ls : Levels V)
      → All (λ e. P e.0 e.1) ls
      → All (λ e. P e.0 e.1) (erase p ls)
  unfolding erase
  erase-All P p [] h = tt
  erase-All P p ((q, v) ∷ ls) h = elim (Bool-cases (eqb_ℤ q p)) [
    | inl e ↦ rw e h.1
    | inr e ↦ rw e (h.0, erase-All P p ls h.1)
  ]

  pub All-find {κ} :
      (P : Price → V → Type κ) (p : Price) (ls : Levels V) (v : V)
      → All (λ e. P e.0 e.1) ls
      → find p ls ≡ some v
      → P p v
  unfolding find
  All-find P p [] v h e = cc
  All-find P p ((q, w) ∷ ls) v h e = elim (Bool-cases (eqb_ℤ q p)) [
    | inl t ↦ let same : w ≡ v = ground arith in subst₂ P (eqb_ℤ→eq q p t) same h.0
    | inr t ↦ All-find P p ls v h.1 (rw t at e)
  ]

  pub precedes-All :
      (bids : Bool) (p q : Price) (ls : Levels V)
      → precedes bids p q ≡ true
      → All (λ e. precedes bids q e.0 ≡ true) ls
      → All (λ e. precedes bids p e.0 ≡ true) ls
  precedes-All bids p q [] h k = tt
  precedes-All bids p q ((r, v) ∷ ls) h k =
      (precedes_trans bids p q r h k.0, precedes-All bids p q ls h k.1)

  pub upsert-IsSorted :
      (bids : Bool) (fresh : V) (f : V → V) (p : Price) (ls : Levels V)
      → IsSorted bids ls
      → IsSorted bids (upsert bids fresh f p ls)
  unfolding upsert
  upsert-IsSorted bids fresh f p [] h = (tt, tt)
  upsert-IsSorted bids fresh f p ((q, v) ∷ ls) h = elim (Bool-cases (eqb_ℤ q p)) [
    | inl e ↦ rw e (subst (λ k. Precede bids k ls) (eqb_ℤ→eq q p e) h.0, h.1)
    | inr e ↦ rw e (elim (Bool-cases (precedes bids p q)) [
      | inl b ↦ rw b ((b, precedes-All bids p q ls b h.0), h)
      | inr b ↦ rw b (
        upsert-All (λ k _. precedes bids q k ≡ true) bids fresh f p ls (precedes_cases bids p q e b)
            (λ _ c. c) h.0,
        upsert-IsSorted bids fresh f p ls h.1,
      )
    ])
  ]

  pub erase-IsSorted :
      (bids : Bool) (p : Price) (ls : Levels V) → IsSorted bids ls → IsSorted bids (erase p ls)
  unfolding erase
  erase-IsSorted bids p [] h = tt
  erase-IsSorted bids p ((q, v) ∷ ls) h = elim (Bool-cases (eqb_ℤ q p)) [
    | inl e ↦ rw e h.1
    | inr e ↦
        rw e (erase-All (λ k _. precedes bids q k ≡ true) p ls h.0, erase-IsSorted bids p ls h.1)
  ]

  -- A price before every key is no key.
  pub find_before :
      (bids : Bool) (p : Price) (ls : Levels V)
      → All (λ e. precedes bids p e.0 ≡ true) ls
      → find p ls ≡ none
  unfolding find
  find_before bids p [] h = refl
  find_before bids p ((q, v) ∷ ls) h = ground (arith, find_before bids p ls h.1)

  abbrev pub find_or : V → Price → Levels V → V
  find_or fresh p ls = elim (find p ls) [ none ↦ fresh | some v ↦ v ]

module _ {V : Type 0} where
  pub find-upsert :
      (bids : Bool) (fresh : V) (f : V → V) (p q : Price) (ls : Levels V)
      → IsSorted bids ls
      → find q (upsert bids fresh f p ls)
        ≡ (if eqb_ℤ p q then some (f (find_or fresh p ls)) else find q ls)
  unfolding find upsert
  find-upsert bids fresh f p q [] h = refl
  find-upsert bids fresh f p q ((r, v) ∷ ls) h = elim (Bool-cases (precedes bids p r)) [
    | inl b ↦ ground (arith, find_before bids p ls (precedes-All bids p r ls b h.0))
    | inr b ↦ ground (arith, find-upsert bids fresh f p q ls h.1)
  ]

  pub find-erase :
      (bids : Bool) (p q : Price) (ls : Levels V)
      → IsSorted bids ls
      → find q (erase p ls) ≡ (if eqb_ℤ p q then none else find q ls)
  unfolding find erase
  find-erase bids p q [] h = ground arith
  find-erase bids p q ((r, v) ∷ ls) h = elim (Bool-cases (eqb_ℤ r p)) [
    | inl e ↦ elim (Bool-cases (eqb_ℤ p q)) [
      | inl t ↦
          let same : r ≡ q = eqb_ℤ→eq r p e ∙ eqb_ℤ→eq p q t in
          rw (e, t) (find_before bids q ls (subst (λ k. Precede bids k ls) same h.0))
      | inr t ↦ ground arith
    ]
    | inr e ↦ ground (arith, find-erase bids p q ls h.1)
  ]

module _ {ℓ} {V : Type ℓ} where
  -- At a key that is there, `upsert` writes `f` of its value and no fresh one.
  pub upsert-All_found {κ} :
      (P : Price → V → Type κ) (bids : Bool) (fresh : V) (f : V → V) (p : Price) (ls : Levels V)
      (v : V)
      → IsSorted bids ls
      → find p ls ≡ some v
      → P p (f v)
      → All (λ e. P e.0 e.1) ls
      → All (λ e. P e.0 e.1) (upsert bids fresh f p ls)
  unfolding find upsert
  upsert-All_found P bids fresh f p [] v s e k h = cc
  upsert-All_found P bids fresh f p ((q, w) ∷ ls) v s e k h = elim (Bool-cases (eqb_ℤ q p)) [
    | inl t ↦ let same : w ≡ v = cc (rw t at e) in rw t (subst (λ x. P p (f x)) (sym same) k, h.1)
    | inr t ↦
        let below : find p ls ≡ some v = rw t at e in
        rw t (elim (Bool-cases (precedes bids p q)) [
          | inl b ↦ cc (below, find_before bids p ls (precedes-All bids p q ls b s.0))
          | inr b ↦ rw b (h.0, upsert-All_found P bids fresh f p ls v s.1 below k h.1)
        ])
  ]
