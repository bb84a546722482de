-- ===== src/Fast/Trading.antt =====
-- `AddOrder` of the pooled book up to the end of `Match`.
use order_book_matching_engi.Common.{
  ℕ, ◌+◌, ◌≡◌, refl, ◌==◌, Bool, true, false, ◌&&◌, Bool-cases, inl, inr, some, List, arith,
}
use order_book_matching_engi.Types.{is_buy}
use order_book_matching_engi.Naive
use order_book_matching_engi.Naive.{AddResult}
use order_book_matching_engi.Naive.Matching
use order_book_matching_engi.Naive.Matching.{Incoming}
use order_book_matching_engi.Naive.Operations
use order_book_matching_engi.Naive.Operations.{matched_book}
use order_book_matching_engi.Fast.{NodePool}
use order_book_matching_engi.Fast.Filling
use order_book_matching_engi.Fast.Book
use order_book_matching_engi.Fast.Rounds.{links}
use order_book_matching_engi.Fast.Queues.{BookSide, in_levels, nodes, Queues, Queues-undisturbed}
use order_book_matching_engi.Fast.Outer.{
  IsTraded, traded, match_levels-IsTraded, match_levels_within,
}
use order_book_matching_engi.Fast.Image.{book_of, IsHeld}
use order_book_matching_engi.Fast.Resting.{Split, Split-sym}

-- The sides of the book while one of them is traded against.
pub trade_held :
    (pool pool' : NodePool) (ps' : List ℕ) (ls left other : BookSide)
    → IsTraded pool ls left pool' ps'
    → ((q : ℕ) → in_levels q ls ≡ false → in_levels q left ≡ false)
    → Split ls other
    → Queues pool.slots other
    → pool.in_use ≡ nodes ls + nodes other
    → Queues pool'.slots other × Split left other × (pool'.in_use ≡ nodes left + nodes other)
trade_held pool pool' ps' ls left other k shrinks h c counted = (
  Queues-undisturbed pool.slots pool'.slots other c (λ q i. k.outside q (Split-sym ls other h q i)),
  λ q i.
      h q (elim (Bool-cases (in_levels q ls)) [ inl t ↦ t | inr t ↦ absurd (cc (shrinks q t, i)) ]),
  omega (arith, k.in_use, counted),
)

module _ (b : Naive.OrderBook) (pool : NodePool) (ps : List ℕ) (a : Incoming)
    (h : IsHeld b.bids b.asks pool ps) where
  abbrev pub matching : Matching.Matched
  matching = Matching.match_levels b.symbol_id a (Operations.against b a.side) a.quantity b.index

  abbrev pub Matches : Type 0
  Matches =
      (pool' : NodePool) × (ps' : List ℕ) × (Filling.match_levels b.symbol_id a
          (Book.against (book_of b pool) a.side) a.quantity (links b.index) pool
        ≡ some (traded b.symbol_id a matching pool'))
      × IsHeld (matched_book b a).bids (matched_book b a).asks pool' ps'
      × (pool'.capacity ≡ pool.capacity)

  pub match_asks : is_buy a.side ≡ true → Matches
  unfolding matched_book
  match_asks e =
      let (pool', ps', run, k) =
        match_levels-IsTraded b.symbol_id a b.asks a.quantity b.index pool ps h.asks_held h.is_pool
          (omega (arith, h.counted)) in
      let (held, split, counted) =
        trade_held pool pool' ps' b.asks _ b.bids k
          (match_levels_within b.symbol_id a b.asks a.quantity b.index)
          (Split-sym b.bids b.asks h.apart) h.bids_held (omega (arith, h.counted)) in
      rw e (
        pool',
        ps',
        run,
        record {
          is_pool = k.is_pool;
          bids_held = held;
          asks_held = k.queues;
          apart =
              Split-sym (Matching.match_levels b.symbol_id a b.asks a.quantity b.index).levels
                b.bids split;
          counted = omega (arith, counted);
        },
        k.capacity,
      )

  pub match_bids : is_buy a.side ≡ false → Matches
  unfolding matched_book
  match_bids e =
      let (pool', ps', run, k) =
        match_levels-IsTraded b.symbol_id a b.bids a.quantity b.index pool ps h.bids_held h.is_pool
          (omega (arith, h.counted)) in
      let (held, split, counted) =
        trade_held pool pool' ps' b.bids _ b.asks k
          (match_levels_within b.symbol_id a b.bids a.quantity b.index) h.apart h.asks_held
          (omega (arith, h.counted)) in
      rw e (
        pool',
        ps',
        run,
        record {
          is_pool = k.is_pool;
          bids_held = k.queues;
          asks_held = held;
          apart = split;
          counted = counted;
        },
        k.capacity,
      )

  pub matched_book-IsHeld : Matches
  matched_book-IsHeld = elim (Bool-cases (is_buy a.side)) [
    | inl e ↦ match_asks e
    | inr e ↦ match_bids e
  ]

-- A book without a slot for what it has to rest.
abbrev pub is_full : Naive.OrderBook → Incoming → ℕ → Bool
is_full b a capacity =
    let m = Matching.match_levels b.symbol_id a (Operations.against b a.side) a.quantity b.index in
    let left = matched_book b a in
    Operations.can_rest a m.remaining && (nodes left.bids + nodes left.asks == capacity)

-- The address of a new node changes nothing but the place.
pub matched_book_at :
    (b : Naive.OrderBook) (it : ℕ) (a : Incoming)
    → matched_book (record b { next_node = it }) a ≡ record (matched_book b a) { next_node = it }
unfolding matched_book
matched_book_at b it a = elim (Bool-cases (is_buy a.side)) [ inl e ↦ rw e refl | inr e ↦ rw e refl ]

module _ (b : Naive.OrderBook) (pool pool' : NodePool) (a : Incoming) where
  abbrev pub done : Matching.Matched
  done = Matching.match_levels b.symbol_id a (Operations.against b a.side) a.quantity b.index

  -- `AddOrder` from the end of `Match` on.
  pub accept_after :
      Filling.match_levels b.symbol_id a
          (Book.against (book_of b pool) a.side)
          a.quantity
          (links b.index)
          pool
        ≡ some (traded b.symbol_id a done pool')
      → Book.accept_order (book_of b pool) a
        ≡ Book.rest_order (book_of (matched_book b a) pool') a done.remaining done.trades
  unfolding Book.accept_order matched_book
  accept_after run = elim (Bool-cases (is_buy a.side)) [
    | inl e ↦ rw run (rw e refl)
    | inr e ↦ rw run (rw e refl)
  ]

pub matched_symbol :
    (b : Naive.OrderBook) (a : Incoming) → (matched_book b a).symbol_id ≡ b.symbol_id
unfolding matched_book
matched_symbol b a = elim (Bool-cases (is_buy a.side)) [ inl e ↦ rw e refl | inr e ↦ rw e refl ]
