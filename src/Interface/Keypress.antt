-- ===== src/Interface/Keypress.antt =====
-- `interface::read_keypress`, over the bytes that the terminal delivers.
pub mod Typing
use chat.Common.{
  ℕ, Bool, true, false, ◌&&◌, List, [], ◌∷◌, ltb, leb, nat_eq, if◌then◌else◌, Outcome, done, halt,
  waiting,
}

-- What a read of the terminal gives: a byte, with whether another one is there already, or none. A read
-- that gives none takes no byte, and is an item of its own: a terminal that gives none for ever is a
-- list with as many such items as it is read.
pub data Input : Type 0 where
  byte : ℕ → Bool → Input
  no_byte : Input

pub data Keypress : Type 0 where
  regular : ℕ → Keypress
  escape enter backspace uparrow downarrow unknown : Keypress

-- The two bytes behind ESC.
unfoldable pub arrow : ℕ → ℕ → Keypress
arrow c d =
    if nat_eq c b'[' && nat_eq d b'A'
    then uparrow
    else if nat_eq c b'[' && nat_eq d b'B'
    then downarrow
    else unknown

-- The read of two bytes, which gives the first one alone if no other is there.
unfoldable pub read_two : ℕ → Bool → List Input → Outcome (Keypress × List Input)
unfolding arrow
read_two c false rest = done (unknown, rest)
read_two c true [] = halt waiting
read_two c true (no_byte ∷ rest) = done (unknown, rest)
read_two c true (byte d more ∷ rest) = done (arrow c d, rest)

-- Behind ESC: the poll that does not wait, and the read.
unfoldable pub read_sequence : Bool → List Input → Outcome (Keypress × List Input)
unfolding read_two
read_sequence false rest = done (escape, rest)
read_sequence true [] = halt waiting
read_sequence true (no_byte ∷ rest) = done (unknown, rest)
read_sequence true (byte c more ∷ rest) = read_two c more rest

-- `verase` is `new_t_.c_cc[VERASE]`. A `char` above 127 is negative, and equal to no `verase`.
unfoldable pub read_keypress : ℕ → List Input → Outcome (Keypress × List Input)
unfolding read_sequence
read_keypress verase [] = halt waiting
read_keypress verase (no_byte ∷ rest) = done (unknown, rest)
read_keypress verase (byte c more ∷ rest) =
    if nat_eq c verase && ltb c 128
    then done (backspace, rest)
    else if nat_eq c 10
    then done (enter, rest)
    else if leb 32 c && leb c 126
    then done (regular c, rest)
    else if nat_eq c 27
    then read_sequence more rest
    else done (unknown, rest)
