-- ===== src/Frames/Stream.antt =====
-- The specification: frames cut off a plain stream of bytes, with no buffer and no offset.
use order_book_matching_engi.Common.{
  ℕ, zero, suc, ◌+◌, ◌≤◌, ◌<◌, ◌≡◌, ◌⊎◌, inl, inr, refl, sym, ap, ◌∙◌, ltb, Bool, true, false,
  length, length-append, length-drop, take, drop, if◌then◌else◌, Option, none, some, List, [], ◌∷◌,
  ◌++◌, arith,
}
use Prim.Native.Nat.add
use order_book_matching_engi.Wire.{Bytes}
use order_book_matching_engi.Frames.{Outcome, waiting, too_long, frame, declared_length}

unfoldable pub cut : Bytes → Outcome × Bytes
cut bytes =
    let n = declared_length bytes in
    if ltb (length bytes) 4
    then (waiting, bytes)
    else if ltb 65536 n
    then (too_long, bytes)
    else if ltb (length bytes) (4 + n)
    then (waiting, bytes)
    else (frame (take n (drop 4 bytes)), drop (4 + n) bytes)

pub record Parsed : Type 0 where
  pub frames : List Bytes
  pub failed : Bool
  pub rest : Bytes

abbrev pub add_frame : Bytes → Option Parsed → Option Parsed
add_frame body none = none
add_frame body (some r) = some (record r { frames = body ∷ r.frames })

unfoldable pub cut_all : ℕ → Bytes → Option Parsed
cut_all zero bytes = none
cut_all (suc fuel) bytes =
    let rest = cut_all fuel (cut bytes).1 in
    elim (cut bytes).0 [
      | waiting ↦ some (record { frames = []; failed = false; rest = (cut bytes).1 })
      | too_long ↦ some (record { frames = []; failed = true; rest = (cut bytes).1 })
      | frame body ↦ add_frame body rest
    ]

pub Outcome-cases :
    (o : Outcome) → ((o ≡ waiting) ⊎ (o ≡ too_long)) ⊎ ((body : Bytes) × (o ≡ frame body))
Outcome-cases waiting = inl (inl refl)
Outcome-cases too_long = inl (inr refl)
Outcome-cases (frame body) = inr (body, refl)

-- A stream that holds no whole frame, or a bad one, is left as it is.
cut_waiting : (bytes : Bytes) → (cut bytes).0 ≡ waiting → (cut bytes).1 ≡ bytes
unfolding cut
cut_waiting bytes e = ground arith

cut_too_long : (bytes : Bytes) → (cut bytes).0 ≡ too_long → (cut bytes).1 ≡ bytes
unfolding cut
cut_too_long bytes e = ground arith

-- A frame takes four bytes at least.
cut_shortens :
    (bytes body : Bytes) → (cut bytes).0 ≡ frame body → length (cut bytes).1 < length bytes
unfolding cut
cut_shortens bytes body e = ground (arith, length-drop (4 + declared_length bytes) bytes)

pub cut_all-waiting :
    (fuel : ℕ) (bytes : Bytes)
    → (cut bytes).0 ≡ waiting
    → cut_all (suc fuel) bytes ≡ some (record { frames = []; failed = false; rest = bytes })
unfolding cut_all
cut_all-waiting fuel bytes e = ground (arith, cut_waiting bytes e)

cut_all-too_long :
    (fuel : ℕ) (bytes : Bytes)
    → (cut bytes).0 ≡ too_long
    → cut_all (suc fuel) bytes ≡ some (record { frames = []; failed = true; rest = bytes })
unfolding cut_all
cut_all-too_long fuel bytes e = ground (arith, cut_too_long bytes e)

pub cut_all-frame :
    (fuel : ℕ) (bytes body : Bytes)
    → (cut bytes).0 ≡ frame body
    → cut_all (suc fuel) bytes ≡ add_frame body (cut_all fuel (cut bytes).1)
unfolding cut_all
cut_all-frame fuel bytes body e = rw (e, cut_all)

-- One round more than the stream has bytes is enough.
pub cut_all_ends :
    (fuel : ℕ) (bytes : Bytes) → length bytes < fuel → (r : Parsed) × (cut_all fuel bytes ≡ some r)
cut_all_ends zero bytes h = absurd (omega arith)
cut_all_ends (suc fuel) bytes h = elim (Outcome-cases (cut bytes).0) [
  | inl (inl e) ↦ (_, cut_all-waiting fuel bytes e)
  | inl (inr e) ↦ (_, cut_all-too_long fuel bytes e)
  | inr (body, e) ↦
      let (r, q) = cut_all_ends fuel (cut bytes).1 (omega (arith, cut_shortens bytes body e)) in
      (
        record r { frames = body ∷ r.frames },
        cut_all-frame fuel bytes body e ∙ ap (add_frame body) q,
      )
]

pub add_frame-eq_some :
    (body : Bytes) (o : Option Parsed) (r : Parsed)
    → add_frame body o ≡ some r
    → (q : Parsed) × (o ≡ some q) × (r ≡ record q { frames = body ∷ q.frames })
add_frame-eq_some body none r e = cc
add_frame-eq_some body (some q) r e = (q, refl, cc)

-- More fuel changes nothing.
pub cut_all_mono :
    (fuel more : ℕ) (bytes : Bytes) (r : Parsed)
    → cut_all fuel bytes ≡ some r
    → fuel ≤ more
    → cut_all more bytes ≡ some r
cut_all_mono zero more bytes r e h = unfold cut_all in cc
cut_all_mono (suc fuel) zero bytes r e h = absurd (omega arith)
cut_all_mono (suc fuel) (suc more) bytes r e h = elim (Outcome-cases (cut bytes).0) [
  | inl (inl w) ↦ cc (cut_all-waiting fuel bytes w, cut_all-waiting more bytes w)
  | inl (inr w) ↦ cc (cut_all-too_long fuel bytes w, cut_all-too_long more bytes w)
  | inr (body, w) ↦
      let (q, inner, whole) =
        add_frame-eq_some body _ r (sym (cut_all-frame fuel bytes body w) ∙ e) in
      cut_all-frame more bytes body w
      ∙ ap (add_frame body) (cut_all_mono fuel more (cut bytes).1 q inner (omega arith))
      ∙ ap some (sym whole)
]

-- A whole frame is cut off in the same way when more bytes follow.
pub take-append_le : (n : ℕ) (xs ys : Bytes) → n ≤ length xs → take n (xs ++ ys) ≡ take n xs
take-append_le zero xs ys h = refl
take-append_le (suc n) [] ys h = absurd (omega arith)
take-append_le (suc n) (x ∷ xs) ys h = ap (◌∷◌ x) (take-append_le n xs ys (omega arith))

pub drop-append_le : (n : ℕ) (xs ys : Bytes) → n ≤ length xs → drop n (xs ++ ys) ≡ drop n xs ++ ys
drop-append_le zero xs ys h = refl
drop-append_le (suc n) [] ys h = absurd (omega arith)
drop-append_le (suc n) (x ∷ xs) ys h = drop-append_le n xs ys (omega arith)

pub declared_length-append :
    (xs ys : Bytes) → 4 ≤ length xs → declared_length (xs ++ ys) ≡ declared_length xs
declared_length-append xs ys h = rw (take-append_le 4 xs ys h)

pub cut-append :
    (xs ys body : Bytes) → (cut xs).0 ≡ frame body → cut (xs ++ ys) ≡ (frame body, (cut xs).1 ++ ys)
unfolding cut
cut-append xs ys body e = ground (
  arith,
  length-append xs ys,
  declared_length-append xs ys,
  drop-append_le 4 xs ys,
  drop-append_le (4 + declared_length xs) xs ys,
  take-append_le (declared_length xs) (drop 4 xs) ys,
  length-drop 4 xs,
)

-- Bytes that come in two chunks give the frames of the whole: those of the first chunk, then those
-- of what it left and the second.
pub cut_all-append :
    (f g : ℕ) (xs ys : Bytes) (r s : Parsed)
    → cut_all f xs ≡ some r
    → r.failed ≡ false
    → cut_all g (r.rest ++ ys) ≡ some s
    → cut_all (f + g) (xs ++ ys) ≡ some (record s { frames = r.frames ++ s.frames })
cut_all-append zero g xs ys r s e ok q = unfold cut_all in cc
cut_all-append (suc f) g xs ys r s e ok q = rw (add.suc f g) (elim (Outcome-cases (cut xs).0) [
  | inl (inl w) ↦
      let same : r ≡ record { frames = []; failed = false; rest = xs } =
        cc (e, cut_all-waiting f xs w) in
      rw same (cut_all_mono g (suc (f + g)) (xs ++ ys) s (rw same at q) (omega arith))
  | inl (inr w) ↦
      let same : r ≡ record { frames = []; failed = true; rest = xs } =
        cc (e, cut_all-too_long f xs w) in
      absurd (cc (ok, ap (λ p. p.failed) same))
  | inr (body, w) ↦
      let (p, inner, whole) = add_frame-eq_some body _ r (sym (cut_all-frame f xs body w) ∙ e) in
      let grown = cut-append xs ys body w in
      let ih : cut_all (f + g) (cut (xs ++ ys)).1
          ≡ some (record s { frames = p.frames ++ s.frames }) =
        rw grown (
          cut_all-append f g (cut xs).1 ys p s inner (sym (ap (λ c. c.failed) whole) ∙ ok)
            (rw whole at q)) in
      cut_all-frame (f + g) (xs ++ ys) body (ap (λ c. c.0) grown)
      ∙ ap (add_frame body) ih
      ∙ rw whole
])
