-- ===== src/Journal.antt =====
-- The write-ahead log: src/persistence/journal.cpp. A file is its bytes; the system's `write` is the
-- list of what its calls return.
pub mod Reading
pub mod Crash
use order_book_matching_engi.Common.{
  ℕ, zero, suc, ◌+◌, ◌-◌, Bool, true, false, length, take, drop, Option, none, some, List, [], ◌∷◌,
  ◌++◌,
}
use order_book_matching_engi.Types.Messages.{Command}
use order_book_matching_engi.Wire.{Bytes}
use order_book_matching_engi.Wire.Commands.{encode_command, decode_command}
use order_book_matching_engi.Frames.{
  FrameDecoder, new_decoder, feed, Outcome, waiting, too_long, frame, try_extract_frame,
  frame_message,
}

-- How an append ends: the file after it, and whether it returned or threw. `blocked`: no further
-- call of `write` is given.
pub data Appended : Type 0 where
  returned : Bytes → Appended
  threw : Bytes → Appended
  blocked : Bytes → Appended

-- The loop of `Append` over the bytes still to write. A call of `write` either fails or appends the
-- first `n` bytes that it is handed and returns `n`.
unfoldable pub write_loop : Bytes → Bytes → List (Option ℕ) → Appended
write_loop file [] calls = returned file
write_loop file (b ∷ left) [] = blocked file
write_loop file (b ∷ left) (none ∷ calls) = threw file
write_loop file (b ∷ left) (some n ∷ calls) =
    write_loop (file ++ take n (b ∷ left)) (drop n (b ∷ left)) calls

unfoldable pub append : Bytes → Command → List (Option ℕ) → Appended
append file cmd calls = write_loop file (frame_message (encode_command cmd)) calls

-- What `ReadJournal` gives: the commands, or one of the two errors that it throws.
pub data Log : Type 0 where
  commands : List Command → Log
  bad_length : Log
  undecodable : Log

abbrev pub add_command : Command → Option Log → Option Log
add_command c none = none
add_command c (some (commands cs)) = some (commands (c ∷ cs))
add_command c (some bad_length) = some bad_length
add_command c (some undecodable) = some undecodable

-- The loop of `ReadJournal`; `none` means that the fuel ran out.
unfoldable pub read_loop : ℕ → FrameDecoder → Option Log
read_loop zero d = none
read_loop (suc fuel) d =
    let rest = read_loop fuel (try_extract_frame d).1 in
    elim (try_extract_frame d).0 [
      | waiting ↦ some (commands [])
      | too_long ↦ some bad_length
      | frame body ↦ elim (decode_command body) [
        | none ↦ some undecodable
        | some c ↦ add_command c rest
      ]
    ]

-- The file as `ReadJournal` takes it, with one round more than the file has bytes. An absent file
-- reads as an empty one.
unfoldable pub read_journal : Bytes → Option Log
read_journal file = read_loop (suc (length file)) (feed new_decoder file)
