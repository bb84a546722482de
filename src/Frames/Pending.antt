-- ===== src/Frames/Pending.antt =====
-- The decoder refines the plain stream: its offset and its compaction cannot be observed.
use order_book_matching_engi.Common.{
  ℕ, zero, suc, ◌+◌, ◌≤◌, ◌≡◌, refl, sym, ap, subst, ◌∙◌, true, false, length, length-append,
  length-drop, drop, Option, none, some, [], ◌∷◌, ◌++◌, arith,
}
use Prim.Native.Nat.add
use mathlib.Core.List.{append_assoc}
use order_book_matching_engi.Wire.{Bytes}
use order_book_matching_engi.Frames.{
  FrameDecoder, feed, compact, Outcome, waiting, too_long, frame, declared_length,
  try_extract_frame, Drained, put_frame, drain,
}
use order_book_matching_engi.Frames.Stream.{
  cut, Parsed, add_frame, cut_all, cut_all_ends, cut_all-append, drop-append_le,
}

-- The bytes not yet consumed.
abbrev pub pending : FrameDecoder → Bytes
pending d = drop d.read_offset d.buffer

abbrev pub IsDecoder : FrameDecoder → Type 0
IsDecoder d = d.read_offset ≤ length d.buffer

drop_all : (n : ℕ) (xs : Bytes) → n ≡ length xs → drop n xs ≡ []
drop_all zero [] h = refl
drop_all zero (x ∷ xs) h = absurd (omega arith)
drop_all (suc n) [] h = refl
drop_all (suc n) (x ∷ xs) h = drop_all n xs (omega arith)

drop-nil : (n : ℕ) → drop {A = ℕ} n [] ≡ []
drop-nil zero = refl
drop-nil (suc n) = refl

drop-drop : (m n : ℕ) (xs : Bytes) → drop n (drop m xs) ≡ drop (m + n) xs
drop-drop zero n xs = rw (add.zero n)
drop-drop (suc m) n [] = drop-nil n ∙ sym (drop-nil (suc m + n))
drop-drop (suc m) n (x ∷ xs) = rw (add.suc m n) (drop-drop m n xs)

compact_lem :
    (d : FrameDecoder) → IsDecoder d → IsDecoder (compact d) × (pending (compact d) ≡ pending d)
unfolding compact
compact_lem d h = ground (arith, drop_all d.read_offset d.buffer)

-- What arrives goes behind what is pending.
pub feed_lem :
    (d : FrameDecoder) (chunk : Bytes)
    → IsDecoder d
    → IsDecoder (feed d chunk) × (pending (feed d chunk) ≡ pending d ++ chunk)
unfolding feed
feed_lem d chunk h =
    (omega (arith, length-append d.buffer chunk), drop-append_le d.read_offset d.buffer chunk h)

-- `TryExtractFrame` cuts the next frame off what is pending, and keeps the offset in the buffer.
pub try_extract_frame-cut :
    (d : FrameDecoder)
    → IsDecoder d
    → let (o, d') = try_extract_frame d in IsDecoder d' × ((o, pending d') ≡ cut (pending d))
unfolding try_extract_frame cut
try_extract_frame-cut d h = ground (
  arith,
  compact_lem d h,
  compact_lem (record d { read_offset = d.read_offset + (4 + declared_length (pending d)) }),
  length-drop d.read_offset d.buffer,
  drop-drop d.read_offset (4 + declared_length (pending d)) d.buffer,
)

-- A drained decoder, seen as a parsed stream.
abbrev pub view : Drained → Parsed
view r = record { frames = r.frames; failed = r.failed; rest = pending r.decoder }

abbrev pub Refines : Option Drained → Option Parsed → Type 0
Refines none p = p ≡ none
Refines (some r) p = IsDecoder r.decoder × (p ≡ some (view r))

Refines-put_frame :
    (body : Bytes) (o : Option Drained) (p : Option Parsed)
    → Refines o p
    → Refines (put_frame body o) (add_frame body p)
Refines-put_frame body none p h = rw h
Refines-put_frame body (some r) p h = (h.0, rw h.1)

drain-waiting :
    (fuel : ℕ) (d : FrameDecoder) (d' : FrameDecoder)
    → try_extract_frame d ≡ (waiting, d')
    → drain (suc fuel) d ≡ some (record { frames = []; failed = false; decoder = d' })
unfolding drain
drain-waiting fuel d d' e = ground arith

pub cut_all_waiting :
    (fuel : ℕ) (bytes : Bytes) (rest : Bytes)
    → cut bytes ≡ (waiting, rest)
    → cut_all (suc fuel) bytes ≡ some (record { frames = []; failed = false; rest = rest })
unfolding cut_all
cut_all_waiting fuel bytes rest e = ground arith

drain-too_long :
    (fuel : ℕ) (d : FrameDecoder) (d' : FrameDecoder)
    → try_extract_frame d ≡ (too_long, d')
    → drain (suc fuel) d ≡ some (record { frames = []; failed = true; decoder = d' })
unfolding drain
drain-too_long fuel d d' e = ground arith

pub cut_all_too_long :
    (fuel : ℕ) (bytes : Bytes) (rest : Bytes)
    → cut bytes ≡ (too_long, rest)
    → cut_all (suc fuel) bytes ≡ some (record { frames = []; failed = true; rest = rest })
unfolding cut_all
cut_all_too_long fuel bytes rest e = ground arith

drain-frame :
    (fuel : ℕ) (d : FrameDecoder) (body : Bytes) (d' : FrameDecoder)
    → try_extract_frame d ≡ (frame body, d')
    → drain (suc fuel) d ≡ put_frame body (drain fuel d')
unfolding drain
drain-frame fuel d body d' e = ground arith

pub cut_all_frame :
    (fuel : ℕ) (bytes : Bytes) (body : Bytes) (rest : Bytes)
    → cut bytes ≡ (frame body, rest)
    → cut_all (suc fuel) bytes ≡ add_frame body (cut_all fuel rest)
unfolding cut_all
cut_all_frame fuel bytes body rest e = ground arith

drain_step :
    (fuel : ℕ) (d : FrameDecoder) (o : Outcome) (d' : FrameDecoder)
    → try_extract_frame d ≡ (o, d')
    → cut (pending d) ≡ (o, pending d')
    → IsDecoder d'
    → Refines (drain fuel d') (cut_all fuel (pending d'))
    → Refines (drain (suc fuel) d) (cut_all (suc fuel) (pending d))
drain_step fuel d waiting d' e c k ih =
    rw (drain-waiting fuel d d' e, cut_all_waiting fuel (pending d) (pending d') c) (k, refl)
drain_step fuel d too_long d' e c k ih =
    rw (drain-too_long fuel d d' e, cut_all_too_long fuel (pending d) (pending d') c) (k, refl)
drain_step fuel d (frame body) d' e c k ih =
    rw (drain-frame fuel d body d' e, cut_all_frame fuel (pending d) body (pending d') c)
      (Refines-put_frame body (drain fuel d') (cut_all fuel (pending d')) ih)

-- Draining a decoder gives what the plain stream of its pending bytes gives.
pub drain-Refines :
    (fuel : ℕ) (d : FrameDecoder) → IsDecoder d → Refines (drain fuel d) (cut_all fuel (pending d))
drain-Refines zero d h = unfold drain cut_all in refl
drain-Refines (suc fuel) d h =
    let d' = (try_extract_frame d).1 in
    let (k, c) = try_extract_frame-cut d h in
    drain_step fuel d (try_extract_frame d).0 d' refl (sym c) k (drain-Refines fuel d' k)

refined_ends :
    (o : Option Drained) (p : Parsed)
    → Refines o (some p)
    → (r : Drained) × (o ≡ some r) × IsDecoder r.decoder × (p ≡ view r)
refined_ends none p h = absurd cc
refined_ends (some r) p h = (r, refl, h.0, cc (h.1))

-- Draining a decoder ends, within one round more than it has pending bytes, with the frames, the
-- failure and the bytes left that cutting its pending bytes as a plain stream gives.
pub drain_ends :
    (d : FrameDecoder)
    → IsDecoder d
    → (r : Drained) × (drain (suc (length (pending d))) d ≡ some r)
      × IsDecoder r.decoder
      × (cut_all (suc (length (pending d))) (pending d) ≡ some (view r))
drain_ends d h =
    let fuel = suc (length (pending d)) in
    let (p, e) = cut_all_ends fuel (pending d) (omega arith) in
    let (r, done, k, same) = refined_ends (drain fuel d) p (rw e at (drain-Refines fuel d h)) in
    (r, done, k, e ∙ ap some same)

drained-view :
    (f : ℕ) (d : FrameDecoder) (r : Drained)
    → IsDecoder d
    → drain f d ≡ some r
    → IsDecoder r.decoder × (cut_all f (pending d) ≡ some (view r))
drained-view f d r h e = subst (λ o. Refines o (cut_all f (pending d))) e (drain-Refines f d h)

Refines-some :
    (o : Option Drained) (p : Parsed)
    → Refines o (some p)
    → (t : Drained) × (o ≡ some t) × (p ≡ view t)
Refines-some none p h = cc
Refines-some (some t) p h = (t, refl, cc (h.1))

parsed-drained :
    (f : ℕ) (d : FrameDecoder) (p : Parsed)
    → IsDecoder d
    → cut_all f (pending d) ≡ some p
    → (t : Drained) × (drain f d ≡ some t) × (p ≡ view t)
parsed-drained f d p h e = Refines-some _ p (subst (Refines (drain f d)) e (drain-Refines f d h))

-- What a reader that drains after every chunk gets does not depend on where the chunks were cut:
-- feeding and draining two chunks gives the frames of draining once on both, in the same order, and
-- leaves the same bytes.
pub drain-feed :
    (f g : ℕ) (d : FrameDecoder) (xs ys : Bytes) (r s : Drained)
    → IsDecoder d
    → drain f (feed d xs) ≡ some r
    → r.failed ≡ false
    → drain g (feed r.decoder ys) ≡ some s
    → (t : Drained) × (drain (f + g) (feed d (xs ++ ys)) ≡ some t)
      × (t.frames ≡ r.frames ++ s.frames)
      × (t.failed ≡ s.failed)
      × (pending t.decoder ≡ pending s.decoder)
drain-feed f g d xs ys r s h first ok second =
    let (k, start) = feed_lem d xs h in
    let (k', one) = drained-view f (feed d xs) r k first in
    let (k'', more) = feed_lem r.decoder ys k' in
    let (_, two) = drained-view g (feed r.decoder ys) s k'' second in
    let (whole, joined) = feed_lem d (xs ++ ys) h in
    let (t, done, same) = parsed-drained (f + g) (feed d (xs ++ ys)) _ whole (
      rw (joined, ← (append_assoc (pending d) xs ys))
        (cut_all-append f g (pending d ++ xs) ys (view r) (view s) (rw start at one) ok
          (rw more at two))) in
    (
      t,
      done,
      sym (ap (λ p. p.frames) same),
      sym (ap (λ p. p.failed) same),
      sym (ap (λ p. p.rest) same),
    )
