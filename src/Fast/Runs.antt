-- ===== src/Fast/Runs.antt =====
-- Sequences of calls of the pooled book.
use order_book_matching_engi.Common.{
  ℕ, ◌+◌, ◌≡◌, refl, ◌∙◌, Bool-cases, inl, inr, Option, some, List, [], ◌∷◌, ◌>>=◌, All,
}
use order_book_matching_engi.Common.Words.{IsU64}
use order_book_matching_engi.Types.{Price, OrderId, Quantity}
use order_book_matching_engi.Pool.{new_pool}
use order_book_matching_engi.Pool.FreeList.{slots_from, new_pool-IsPool}
use order_book_matching_engi.Naive
use order_book_matching_engi.Naive.Matching.{Incoming}
use order_book_matching_engi.Naive.Books.{IsBook, empty_book-IsBook, add_order-IsBook}
use order_book_matching_engi.Naive.Resizing.{modify_order-IsBook}
use order_book_matching_engi.Naive.Indexed.{Agrees, empty_book-IsIndexed}
use order_book_matching_engi.Fast
use order_book_matching_engi.Fast.{NodePool}
use order_book_matching_engi.Fast.Book
use order_book_matching_engi.Levels.{Levels}
use order_book_matching_engi.Fast.Image.{book_of, IsHeld}
use order_book_matching_engi.Fast.Adding.{Simulates}
use order_book_matching_engi.Fast.Entering.{lacks_slot, add_order-Simulates, add_order_without_slot}
use order_book_matching_engi.Fast.Cancelling.{cancel_order-Simulates}
use order_book_matching_engi.Fast.Replacing.{modify_order-Simulates}

-- A pooled book that is the image of a well-formed reference book.
pub record IsPooled (f : Fast.OrderBook) : Type 0 where
  pub book : Naive.OrderBook
  pub frees : List ℕ
  pub image : f ≡ book_of book f.pool
  pub whole : IsBook book
  pub held : IsHeld book.bids book.asks f.pool frees
  pub agrees : Agrees book

-- A call of one of the operations.
pub data Call : Type 0 where
  add : Incoming → Call
  cancel : OrderId → Call
  modify : OrderId → Price → Quantity → ℕ → ℕ → Call

abbrev pub IsSized : Call → Type 0
IsSized (add a) = IsU64 a.quantity
IsSized (cancel id) = Unit
IsSized (modify id p q seq ts) = IsU64 q

unfoldable pub call : Fast.OrderBook → Call → Option Fast.OrderBook
call f (add a) = do (r, f') ← Book.add_order f a; some f'
call f (cancel id) = do (r, f') ← Book.cancel_order f id; some f'
call f (modify id p q seq ts) = do (r, f') ← Book.modify_order f id p q seq ts; some f'

unfoldable pub calls : Fast.OrderBook → List Call → Option Fast.OrderBook
calls f [] = some f
calls f (c ∷ cs) = do f' ← call f c; calls f' cs

-- Where a call ends.
abbrev StaysPooled : Fast.OrderBook → Call → Type 0
StaysPooled f c =
    (f' : Fast.OrderBook) × (call f c ≡ some f')
    × (f'.pool.capacity ≡ f.pool.capacity)
    × IsPooled f'

image_of_result :
    {R : Type 0} (r : R × Naive.OrderBook) (f : Option (R × Fast.OrderBook)) (slots : ℕ)
    → Simulates r f slots
    → IsBook r.1
    → (f' : Fast.OrderBook) × (f ≡ some (r.0, f')) × (f'.pool.capacity ≡ slots) × IsPooled f'
image_of_result r f slots s k = (
  book_of r.1 s.pool,
  s.same,
  s.capacity,
  record { book = r.1; frees = s.frees; image = refl; whole = k; held = s.held; agrees = s.agrees },
)

at_node : (b : Naive.OrderBook) (it : ℕ) → IsBook b → IsBook (record b { next_node = it })
at_node b it k = record { bids = k.bids; asks = k.asks; uncrossed = k.uncrossed }

module _ (b : Naive.OrderBook) (pool : NodePool) (ps : List ℕ) (k : IsBook b)
    (h : IsHeld b.bids b.asks pool ps) (g : Agrees b) where
  add_returns : (a : Incoming) → IsU64 a.quantity → StaysPooled (book_of b pool) (add a)
  unfolding call
  add_returns a u = elim (Bool-cases (lacks_slot b a pool.capacity)) [
    | inl e ↦
        let (f', run, capacity, pooled) =
          image_of_result _ _ _ (add_order_without_slot b a pool ps k h g e) k in
        (f', rw run refl, capacity, pooled)
    | inr e ↦
        let (it, done) = add_order-Simulates b a pool ps k h g e in
        let (f', run, capacity, pooled) =
          image_of_result _ _ _ done
            (add_order-IsBook (record b { next_node = it }) a (at_node b it k) u) in
        (f', rw run refl, capacity, pooled)
  ]

  cancel_returns : (id : OrderId) → StaysPooled (book_of b pool) (cancel id)
  unfolding call
  cancel_returns id =
      let (r, same, done, whole) = cancel_order-Simulates b pool id ps k h g in
      let (f', run, capacity, pooled) = image_of_result r _ _ done whole in
      (f', rw run refl, capacity, pooled)

  modify_returns :
      (id : OrderId) (p : Price) (q : Quantity) (seq ts : ℕ)
      → IsU64 q
      → StaysPooled (book_of b pool) (modify id p q seq ts)
  unfolding call
  modify_returns id p q seq ts u =
      let (it, r, same, done) = modify_order-Simulates b pool ps id p q seq ts k h g in
      let (f', run, capacity, pooled) = image_of_result r _ _ done (
        modify_order-IsBook (record b { next_node = it }) r.1 id p q seq ts r.0 (at_node b it k) u
          same) in
      (f', rw run refl, capacity, pooled)

  image_returns : (c : Call) → IsSized c → StaysPooled (book_of b pool) c
  image_returns (add a) u = add_returns a u
  image_returns (cancel id) u = cancel_returns id
  image_returns (modify id p q seq ts) u = modify_returns id p q seq ts u

pub call-IsPooled : (f : Fast.OrderBook) (c : Call) → IsPooled f → IsSized c → StaysPooled f c
call-IsPooled f c h u = rw h.image (image_returns h.book f.pool h.frees h.whole h.held h.agrees c u)

-- On a pooled book that is the image of a well-formed reference book, calls whose quantities are in
-- range return one after the other, without a use of a free slot or a null pointer, the book stays such an
-- image, and its pool keeps its capacity.
pub calls-IsPooled :
    (f : Fast.OrderBook) (cs : List Call)
    → IsPooled f
    → All IsSized cs
    → (f' : Fast.OrderBook) × (calls f cs ≡ some f')
      × (f'.pool.capacity ≡ f.pool.capacity)
      × IsPooled f'
unfolding calls
calls-IsPooled f [] h u = (f, refl, refl, h)
calls-IsPooled f (c ∷ cs) h u =
    let (f1, run, capacity, h1) = call-IsPooled f c h u.0 in
    let (f2, more, capacity2, h2) = calls-IsPooled f1 cs h1 u.1 in
    (f2, rw run more, capacity2 ∙ capacity, h2)

pub empty_book-IsPooled : (symbol max_orders : ℕ) → IsPooled (Fast.empty_book symbol max_orders)
unfolding Fast.empty_book Naive.empty_book new_pool
empty_book-IsPooled symbol max_orders = record {
  book = Naive.empty_book symbol;
  frees = slots_from 0 max_orders;
  image = refl;
  whole = empty_book-IsBook symbol;
  held = record {
    is_pool = new_pool-IsPool max_orders;
    bids_held = tt;
    asks_held = tt;
    apart = λ q i. absurd cc;
    counted = refl;
  };
  agrees = (empty_book-IsIndexed symbol).agrees;
}

-- The sum of the counts that the levels keep.
abbrev pub level_counts : Levels Fast.PriceLevel → ℕ
level_counts [] = 0
level_counts ((p, l) ∷ ls) = l.count + level_counts ls
