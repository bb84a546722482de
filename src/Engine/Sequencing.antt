-- ===== src/Engine/Sequencing.antt =====
-- Every event of a command carries the command's sequence number.
use order_book_matching_engi.Common.{
  ℕ, ◌-◌, ◌≡◌, refl, subst, ◌==◌, not, ◌&&◌, ◌||◌, leb, All, All-append, map, Option, none, some,
  List, [], ◌∷◌, Option-cases, Bool-cases, inl, inr, arith,
}
use order_book_matching_engi.Common.Int.{ℤ, leb_ℤ, eqb_ℤ}
use order_book_matching_engi.Common.Words.{sub64}
use order_book_matching_engi.Common.Keyed
use order_book_matching_engi.Types.{Price, OrderId, Side, Order, Trade}
use order_book_matching_engi.Types.Messages.{Event, NewOrderCommand, CancelCommand, ModifyCommand}
use order_book_matching_engi.Types.Messages.Event.{
  accepted, rejected, cancelled, modified, trade, book_update,
}
use order_book_matching_engi.Levels.{Levels}
use order_book_matching_engi.Naive.{
  Node, PriceLevel, Index, Locator, OrderBook, AddResult, CancelResult, ModifyResult, deref,
}
use order_book_matching_engi.Naive.Matching.{
  Incoming, Filled, crosses, trade_of, trade_quantity, index_after, match_orders, match_levels,
}
use order_book_matching_engi.Naive.Operations.{
  against, accept_order, add_order, reject_of, remove_from_book,
}
use order_book_matching_engi.Naive.Amend.{replacement, modify_found, modify_order}
use order_book_matching_engi.Engine.Events.{
  book_updates, accepted_events, cancelled_events, modified_events, touched_by_add,
  touched_by_modify,
}

abbrev pub sequence_of : Event → ℕ
sequence_of (accepted e) = e.sequence_number
sequence_of (rejected e) = e.sequence_number
sequence_of (cancelled e) = e.sequence_number
sequence_of (modified e) = e.sequence_number
sequence_of (trade t) = t.sequence_number
sequence_of (book_update e) = e.sequence_number

abbrev pub AreSequenced : ℕ → List Event → Type 0
AreSequenced seq = All (λ e. sequence_of e ≡ seq)

abbrev pub TradesSequenced : ℕ → List Trade → Type 0
TradesSequenced seq = All (λ t. t.sequence_number ≡ seq)

module _ (symbol : ℕ) (a : Incoming) where
  match_orders-TradesSequenced :
      (ns : List Node) (total remaining : ℕ) (index : Index)
      → TradesSequenced a.seq (match_orders symbol a ns total remaining index).trades
  unfolding match_orders trade_of
  match_orders-TradesSequenced [] total remaining index = tt
  match_orders-TradesSequenced (n ∷ ns) total remaining index = ground (
    arith,
    match_orders-TradesSequenced ns (sub64 total (trade_quantity n remaining))
        (remaining - trade_quantity n remaining) (index_after n remaining index),
  )

  match_levels-TradesSequenced :
      (ls : Levels PriceLevel) (remaining : ℕ) (index : Index)
      → TradesSequenced a.seq (match_levels symbol a ls remaining index).trades
  unfolding match_levels
  match_levels-TradesSequenced [] remaining index = tt
  match_levels-TradesSequenced ((p, l) ∷ ls) remaining index =
      let f : Filled = match_orders symbol a l.orders l.total_quantity remaining index in
      elim (Bool-cases (remaining == 0 || not (crosses a p))) [
        | inl t ↦ rw t tt
        | inr t ↦ rw t (
            All-append (λ x. x.sequence_number ≡ a.seq) f.trades
              (match_levels symbol a ls f.remaining f.index).trades
              (match_orders-TradesSequenced l.orders l.total_quantity remaining index)
              (match_levels-TradesSequenced ls f.remaining f.index))
      ]

pub add_order-TradesSequenced :
    (b : OrderBook) (a : Incoming) → TradesSequenced a.seq (add_order b a).0.trades
unfolding add_order accept_order
add_order-TradesSequenced b a = elim (Option-cases (reject_of b a)) [
  | inl e ↦
      ground
        (arith, match_levels-TradesSequenced b.symbol_id a (against b a.side) a.quantity b.index)
  | inr (reason, e) ↦ rw (e, add_order) tt
]

modify_found-TradesSequenced :
    (b b' : OrderBook) (id : OrderId) (loc : Locator) (o : Order) (new_price : Price)
    (new_quantity seq ts : ℕ) (r : ModifyResult)
    → modify_found b id loc o new_price new_quantity seq ts ≡ some (r, b')
    → TradesSequenced seq r.trades
unfolding modify_found
modify_found-TradesSequenced b b' id loc o new_price new_quantity seq ts r e =
    elim (Bool-cases (eqb_ℤ new_price o.price && leb new_quantity o.remaining_quantity)) [
      | inl t ↦ let same : [] ≡ r.trades = cc in subst (TradesSequenced seq) same tt
      | inr t ↦ elim (Option-cases (remove_from_book b loc id)) [
        | inl g ↦ absurd cc
        | inr (c, g) ↦
            let a = replacement id o new_price new_quantity seq ts in
            let same : (add_order c a).0.trades ≡ r.trades = cc in
            subst (TradesSequenced seq) same (add_order-TradesSequenced c a)
      ]
    ]

pub modify_order-TradesSequenced :
    (b b' : OrderBook) (id : OrderId) (new_price : Price) (new_quantity seq ts : ℕ)
    (r : ModifyResult)
    → modify_order b id new_price new_quantity seq ts ≡ some (r, b')
    → TradesSequenced seq r.trades
unfolding modify_order
modify_order-TradesSequenced b b' id new_price new_quantity seq ts r e =
    elim (Option-cases (Keyed.find id b.index)) [
      | inl f ↦ subst (TradesSequenced seq) (let same : [] ≡ r.trades = cc in same) tt
      | inr (loc, f) ↦ elim (Bool-cases (new_quantity == 0)) [
        | inl g ↦ subst (TradesSequenced seq) (let same : [] ≡ r.trades = cc in same) tt
        | inr g ↦ elim (Bool-cases (leb_ℤ new_price (ℤ.pos 0))) [
          | inl k ↦ subst (TradesSequenced seq) (let same : [] ≡ r.trades = cc in same) tt
          | inr k ↦ elim (Option-cases (deref b loc)) [
            | inl d ↦ absurd cc
            | inr (o, d) ↦
                let same : modify_found b id loc o new_price new_quantity seq ts ≡ some (r, b') =
                  cc in
                modify_found-TradesSequenced b b' id loc o new_price new_quantity seq ts r same
          ]
        ]
      ]
    ]

trades-AreSequenced :
    (seq : ℕ) (ts : List Trade) → TradesSequenced seq ts → AreSequenced seq (map trade ts)
trades-AreSequenced seq [] h = tt
trades-AreSequenced seq (t ∷ ts) h = (h.0, trades-AreSequenced seq ts h.1)

book_updates-AreSequenced :
    (b : OrderBook) (seq ts symbol : ℕ) (touched : List (Side × Price))
    → AreSequenced seq (book_updates b seq ts symbol touched)
unfolding book_updates
book_updates-AreSequenced b seq ts symbol [] = tt
book_updates-AreSequenced b seq ts symbol ((s, p) ∷ touched) =
    (refl, book_updates-AreSequenced b seq ts symbol touched)

pub accepted_events-AreSequenced :
    (c : NewOrderCommand) (seq : ℕ) (r : AddResult) (b : OrderBook)
    → TradesSequenced seq r.trades
    → AreSequenced seq (accepted_events c seq r b)
unfolding accepted_events
accepted_events-AreSequenced c seq r b h = (
  refl,
  All-append (λ e. sequence_of e ≡ seq) (map trade r.trades) _ (trades-AreSequenced seq r.trades h)
      (book_updates-AreSequenced b seq c.timestamp c.symbol_id (touched_by_add c r)),
)

pub cancelled_events-AreSequenced :
    (c : CancelCommand) (seq : ℕ) (existing : Option Order) (r : CancelResult) (b : OrderBook)
    → AreSequenced seq (cancelled_events c seq existing r b)
unfolding cancelled_events
cancelled_events-AreSequenced c seq none r b = (refl, tt)
cancelled_events-AreSequenced c seq (some o) r b =
    (refl, book_updates-AreSequenced b seq c.timestamp c.symbol_id ((o.side, o.price) ∷ []))

pub modified_events-AreSequenced :
    (c : ModifyCommand) (seq : ℕ) (o : Order) (r : ModifyResult) (b : OrderBook)
    → TradesSequenced seq r.trades
    → AreSequenced seq (modified_events c seq o r b)
unfolding modified_events
modified_events-AreSequenced c seq o r b h = (
  refl,
  All-append (λ e. sequence_of e ≡ seq) (map trade r.trades) _ (trades-AreSequenced seq r.trades h)
      (book_updates-AreSequenced b seq c.timestamp c.symbol_id (touched_by_modify c o r)),
)
