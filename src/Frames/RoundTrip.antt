-- ===== src/Frames/RoundTrip.antt =====
-- `FrameMessage` against the decoder: whole messages come back, and a torn one is waited for.
use order_book_matching_engi.Common.{
  ℕ, zero, suc, ◌+◌, ◌%◌, ◌^◌, ◌≤◌, ◌<◌, ◌≡◌, refl, sym, ap, ◌∙◌, false, All, length, length-append,
  length-take, take, drop, take-append, drop-append, some, List, [], ◌∷◌, ◌++◌, arith,
}
use order_book_matching_engi.Wire.{Bytes, push_bytes}
use order_book_matching_engi.Wire.Primitives.{or_bytes-push_bytes_four}
use order_book_matching_engi.Frames.{
  waiting, frame, declared_length, frame_message, max_frame_bytes,
}
use order_book_matching_engi.Frames.Stream.{
  cut, add_frame, cut_all, cut_all-frame, cut_all-waiting, declared_length-append,
}
use mathlib.Core.List.{append_assoc, append-nil}

-- A body that the decoder accepts.
abbrev pub IsBody : Bytes → Type 0
IsBody body = length body ≤ max_frame_bytes

take-length : (n : ℕ) (xs ys : Bytes) → n ≡ length xs → take n (xs ++ ys) ≡ xs
take-length n xs ys h = rw h (take-append xs ys)

drop-length : (n : ℕ) (xs ys : Bytes) → n ≡ length xs → drop n (xs ++ ys) ≡ ys
drop-length n xs ys h = rw h (drop-append xs ys)

declared_length-message :
    (body rest : Bytes) → IsBody body → declared_length (frame_message body ++ rest) ≡ length body
unfolding frame_message push_bytes
declared_length-message body rest h =
    or_bytes-push_bytes_four (length body % 2 ^ 32) (omega arith) ∙ omega arith

pub length-frame_message : (body : Bytes) → length (frame_message body) ≡ 4 + length body
unfolding frame_message push_bytes
length-frame_message body = omega arith

-- A message is cut off as its body, whatever follows it.
pub cut-frame_message :
    (body rest : Bytes) → IsBody body → cut (frame_message body ++ rest) ≡ (frame body, rest)
unfolding cut frame_message push_bytes
cut-frame_message body rest h = ground (
  arith,
  declared_length-message body rest h,
  length-append body rest,
  take-length (declared_length (frame_message body ++ rest)) body rest,
  drop-length (declared_length (frame_message body ++ rest)) body rest,
)

pub take-append-drop : (k : ℕ) (xs : Bytes) → take k xs ++ drop k xs ≡ xs
take-append-drop zero xs = refl
take-append-drop (suc k) [] = refl
take-append-drop (suc k) (x ∷ xs) = ap (◌∷◌ x) (take-append-drop k xs)

-- Four bytes of a message tell its length.
declared_length-take :
    (body : Bytes) (k : ℕ)
    → IsBody body
    → 4 ≤ length (take k (frame_message body))
    → declared_length (take k (frame_message body)) ≡ length body
declared_length-take body k h long =
    let m : Bytes = frame_message body in
    sym (declared_length-append (take k m) (drop k m) long)
    ∙ ap declared_length (take-append-drop k m ∙ sym (append-nil m))
    ∙ declared_length-message body [] h

-- The stream of some bodies, one message behind the other.
abbrev pub messages : List Bytes → Bytes
messages [] = []
messages (body ∷ bodies) = frame_message body ++ messages bodies

-- Bytes that stop inside a message: fewer than the prefix and its declared length.
pub cut_torn :
    (body : Bytes) (k : ℕ)
    → IsBody body
    → k < length (frame_message body)
    → (cut (take k (frame_message body))).0 ≡ waiting
unfolding cut
cut_torn body k h short =
    let m : Bytes = frame_message body in
    ground (arith, length-take k m, length-frame_message body, declared_length-take body k h)

-- A stream of messages is cut into their bodies, and what follows the last whole one is left.
pub cut_all-messages :
    (bodies : List Bytes) (tail : Bytes)
    → All IsBody bodies
    → (cut tail).0 ≡ waiting
    → cut_all (suc (length bodies)) (messages bodies ++ tail)
      ≡ some (record { frames = bodies; failed = false; rest = tail })
cut_all-messages [] tail h w = cut_all-waiting 0 tail w
cut_all-messages (body ∷ bodies) tail h w =
    let next = cut-frame_message body (messages bodies ++ tail) h.0 in
    rw (append_assoc (frame_message body) (messages bodies) tail) (
      cut_all-frame (suc (length bodies)) _ body (ap (λ c. c.0) next)
      ∙ rw next (ap (add_frame body) (cut_all-messages bodies tail h.1 w)))
