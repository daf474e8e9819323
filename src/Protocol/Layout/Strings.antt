-- ===== src/Protocol/Layout/Strings.antt =====
-- The loops over length arrays and over the strings that follow them.
use chat.Common.{
  ℕ, zero, suc, ◌+◌, ◌*◌, ◌%◌, ◌^◌, ◌≤◌, ◌<◌, ◌≡◌, refl, ap, ◌∙◌, List, [], ◌∷◌, ◌++◌, length, All,
  take, drop, arith, Str, Outcome, done, ◌>>=◌, append_assoc, length-append, take_of_le,
}
use chat.Endianness.{e_htole32, le_bytes, le_value, length-le_bytes}
use chat.Buffer.{
  Bytes, read_bytes, read_u32, read_bytes_at, read_u32_at, read_bytes_in, read_u32_in,
}

abbrev pub sum : List ℕ → ℕ
sum [] = 0
sum (n ∷ ns) = n + sum ns

abbrev pub lengths : List Str → List ℕ
lengths [] = []
lengths (u ∷ us) = length u ∷ lengths us

-- The two regions that the serialising loop fills through its two pointers.
unfoldable pub write_lengths : List Str → Bytes
write_lengths [] = []
write_lengths (u ∷ us) = le_bytes 4 (e_htole32 (length u % 2 ^ 32)) ++ write_lengths us

unfoldable pub write_strings : List Str → Bytes
write_strings [] = []
write_strings (u ∷ us) = take (length u % 2 ^ 32) u ++ write_strings us

-- `total_u_len`, a `uint32_t`, is added up beside the lengths.
unfoldable pub read_lengths : Bytes → ℕ → ℕ → ℕ → Outcome (List ℕ × ℕ)
read_lengths d zero off total = done ([], total)
read_lengths d (suc n) off total = do
  l ← read_u32 d off
  rest ← read_lengths d n (off + 4) ((total + l) % 2 ^ 32)
  done (l ∷ rest.0, rest.1)

unfoldable pub read_strings : Bytes → List ℕ → ℕ → Outcome (List Str)
read_strings d [] off = done []
read_strings d (l ∷ ls) off = do
  u ← read_bytes d off l
  us ← read_strings d ls (off + l)
  done (u ∷ us)

pub length-write_lengths : (us : List Str) → length (write_lengths us) ≡ 4 * length us
unfolding write_lengths
length-write_lengths [] = omega arith
length-write_lengths (u ∷ us) = omega (
  arith,
  length-append (le_bytes 4 (length u % 2 ^ 32)) (write_lengths us),
  length-le_bytes 4 (length u % 2 ^ 32),
  length-write_lengths us,
)

-- A string that is shorter than 2 ^ 32 is written whole.
whole_string : (u : Str) → length u < 2 ^ 32 → take (length u % 2 ^ 32) u ≡ u
whole_string u h = take_of_le (length u % 2 ^ 32) u (omega (arith, h))

abbrev pub IsShort : Str → Type 0
IsShort u = length u < 2 ^ 32

pub length-write_strings-IsShort :
    (us : List Str) → All IsShort us → length (write_strings us) ≡ sum (lengths us)
unfolding write_strings
length-write_strings-IsShort [] h = omega arith
length-write_strings-IsShort (u ∷ us) h =
    rw (whole_string u h.0)
      (omega (arith, length-append u (write_strings us), length-write_strings-IsShort us h.1))

All-IsShort : (us : List Str) → sum (lengths us) < 2 ^ 32 → All IsShort us
All-IsShort [] h = tt
All-IsShort (u ∷ us) h = (omega (arith, h), All-IsShort us (omega (arith, h)))

pub length-write_strings :
    (us : List Str) → sum (lengths us) < 2 ^ 32 → length (write_strings us) ≡ sum (lengths us)
length-write_strings us h = length-write_strings-IsShort us (All-IsShort us h)

pub read_lengths_at :
    (pre : Bytes) (us : List Str) (post : Bytes) (d : Bytes) (off total : ℕ)
    → d ≡ pre ++ (write_lengths us ++ post)
    → off ≡ length pre
    → total + sum (lengths us) < 2 ^ 32
    → read_lengths d (length us) off total ≡ done (lengths us, total + sum (lengths us))
unfolding read_lengths write_lengths
read_lengths_at pre [] post d off total e o h = ap done (ap (λ (t : ℕ). ([], t)) (omega arith))
read_lengths_at pre (u ∷ us) post d off total e o h = ground (
  arith,
  read_u32_at pre (length u % 2 ^ 32) (write_lengths us ++ post) (e ∙ simp append_assoc) o
      (omega arith),
  read_lengths_at (pre ++ le_bytes 4 (length u % 2 ^ 32)) us post d (off + 4)
      ((total + length u) % 2 ^ 32) (e ∙ simp append_assoc)
      (omega (
        arith,
        length-append pre (le_bytes 4 (length u % 2 ^ 32)),
        length-le_bytes 4 (length u % 2 ^ 32),
      ))
      (omega arith),
)

pub read_strings_at :
    (pre : Bytes) (us : List Str) (post : Bytes) (d : Bytes) (off : ℕ)
    → d ≡ pre ++ (write_strings us ++ post)
    → off ≡ length pre
    → sum (lengths us) < 2 ^ 32
    → read_strings d (lengths us) off ≡ done us
unfolding read_strings write_strings
read_strings_at pre [] post d off e o h = refl
read_strings_at pre (u ∷ us) post d off e o h = ground (
  arith,
  read_bytes_at pre u (write_strings us ++ post) {len = length u} (e' ∙ simp append_assoc) o refl,
  read_strings_at (pre ++ u) us post d (off + length u) (e' ∙ simp append_assoc)
      (omega (arith, length-append pre u)) (omega (arith, h)),
)
  where
    e' : d ≡ pre ++ ((u ++ write_strings us) ++ post)
    e' = e ∙ ap (λ v. pre ++ ((v ++ write_strings us) ++ post)) (whole_string u (omega (arith, h)))

-- The lengths that stand in a buffer, and the strings of such lengths.
abbrev pub lengths_at : Bytes → ℕ → ℕ → List ℕ
lengths_at d zero off = []
lengths_at d (suc n) off = le_value (take 4 (drop off d)) ∷ lengths_at d n (off + 4)

abbrev pub strings_at : Bytes → List ℕ → ℕ → List Str
strings_at d [] off = []
strings_at d (l ∷ ls) off = take l (drop off d) ∷ strings_at d ls (off + l)

pub read_lengths_in :
    (d : Bytes) (n off total : ℕ)
    → off + 4 * n ≤ length d
    → total < 2 ^ 32
    → read_lengths d n off total
      ≡ done (lengths_at d n off, (total + sum (lengths_at d n off)) % 2 ^ 32)
unfolding read_lengths
read_lengths_in d zero off total h t = ap done (ap (λ (s : ℕ). ([], s)) (omega arith))
read_lengths_in d (suc n) off total h t = ground (
  arith,
  read_u32_in d off (omega arith),
  read_lengths_in d n (off + 4) ((total + le_value (take 4 (drop off d))) % 2 ^ 32) (omega arith)
      (omega arith),
)

pub read_strings_in :
    (d : Bytes) (ls : List ℕ) (off : ℕ)
    → off + sum ls ≤ length d
    → read_strings d ls off ≡ done (strings_at d ls off)
unfolding read_strings
read_strings_in d [] off h = refl
read_strings_in d (l ∷ ls) off h =
    ground
      (arith, read_bytes_in d off l (omega arith), read_strings_in d ls (off + l) (omega arith))
