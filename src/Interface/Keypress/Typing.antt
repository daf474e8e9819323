-- ===== src/Interface/Keypress/Typing.antt =====
-- What `read_keypress` makes of the keys of a keyboard.
use chat.Common.{
  ℕ, zero, suc, ◌<◌, ◌≤◌, ◌≡◌, ◌≢◌, refl, true, false, List, [], ◌∷◌, ◌++◌, length, arith, done,
  fail, halt, All, ap, Bool,
}
use chat.Interface.Keypress.{
  Input, byte, no_byte, Keypress, regular, escape, enter, backspace, uparrow, downarrow, unknown,
  arrow, read_two, read_sequence, read_keypress,
}

-- The bytes of a key, and whether another byte is there already behind the last one. A terminal sends
-- those of an arrow at once; behind ESC alone there is none.
abbrev pub typed : ℕ → Keypress → Bool → List Input
typed verase (regular c) more = byte c more ∷ []
typed verase escape more = byte 27 false ∷ []
typed verase enter more = byte 10 more ∷ []
typed verase backspace more = byte verase more ∷ []
typed verase uparrow more = byte 27 true ∷ byte b'[' true ∷ byte b'A' more ∷ []
typed verase downarrow more = byte 27 true ∷ byte b'[' true ∷ byte b'B' more ∷ []
typed verase unknown more = no_byte ∷ []

abbrev pub IsPrintable : ℕ → Type 0
IsPrintable c = (32 ≤ c) × (c ≤ 126)

-- A regular key has a printable character.
abbrev pub IsTypable : Keypress → Type 0
IsTypable (regular c) = IsPrintable c
IsTypable k = Unit {0}

-- Where the terminal's erase character is 127, each key is read from its own bytes.
pub read_keypress-typed :
    (verase : ℕ) (k : Keypress) (more : Bool) (rest : List Input)
    → 126 < verase
    → verase < 128
    → IsTypable k
    → read_keypress verase (typed verase k more ++ rest) ≡ done (k, rest)
unfolding read_keypress
read_keypress-typed verase (regular c) more rest lo hi h = ground arith
read_keypress-typed verase escape more rest lo hi h = ground arith
read_keypress-typed verase enter more rest lo hi h = ground arith
read_keypress-typed verase backspace more rest lo hi h = ground arith
read_keypress-typed verase uparrow more rest lo hi h = ground arith
read_keypress-typed verase downarrow more rest lo hi h = ground arith
read_keypress-typed verase unknown more rest lo hi h = ground arith

-- The results of call after call, as long as calls return.
unfoldable pub keypresses : ℕ → ℕ → List Input → List Keypress
keypresses zero verase s = []
keypresses (suc n) verase s = elim (read_keypress verase s) [
  | done r ↦ r.0 ∷ keypresses n verase r.1
  | fail e ↦ []
  | halt h ↦ []
]

-- Key after key, each with a byte of the next one there already or not.
abbrev pub typed_all : ℕ → List (Keypress × Bool) → List Input
typed_all verase [] = []
typed_all verase (k ∷ ks) = typed verase k.0 k.1 ++ typed_all verase ks

abbrev pub only_keys : List (Keypress × Bool) → List Keypress
only_keys [] = []
only_keys (k ∷ ks) = k.0 ∷ only_keys ks

-- With the erase character 127, and where the characters of regular keys are printable: keys are read
-- as they were typed, in order, also where a key is typed before the one in front of it is read; but
-- for ESC, behind which no byte may be there yet when it is read.
pub keypresses-typed_all :
    (ks : List (Keypress × Bool))
    → All (λ (k : Keypress × Bool). IsTypable k.0) ks
    → keypresses (length ks) 127 (typed_all 127 ks) ≡ only_keys ks
unfolding keypresses
keypresses-typed_all [] h = refl
keypresses-typed_all (k ∷ ks) h =
    rw
      (
        read_keypress-typed 127 k.0 k.1 (typed_all 127 ks) (omega arith) (omega arith) h.0,
        keypresses,
      )
      (ap (◌∷◌ k.0) (keypresses-typed_all ks h.1))

-- Where a byte other than `[` is there already behind ESC, and another one behind it, a call takes all
-- three for an unknown key.
pub read_keypress-swallows :
    (verase c d : ℕ) (more : Bool) (rest : List Input)
    → 27 ≢ verase
    → c ≢ b'['
    → read_keypress verase (byte 27 true ∷ byte c true ∷ byte d more ∷ rest) ≡ done (unknown, rest)
unfolding read_keypress read_sequence read_two arrow
read_keypress-swallows verase c d more rest other plain = ground arith
