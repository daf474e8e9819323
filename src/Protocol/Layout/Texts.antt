-- ===== src/Protocol/Layout/Texts.antt =====
-- A status code and, if it is OK, a chat: the receive text response.
use chat.Common.{
  ℕ, zero, suc, ◌+◌, ◌*◌, ◌%◌, ◌^◌, ◌<◌, ◌≡◌, ◌≢◌, refl, sym, ap, ◌∙◌, not, List, [], ◌∷◌, ◌++◌,
  length, arith, ltb, nat_eq, if◌then◌else◌, Str, Outcome, done, fail, body_error, ◌>>=◌,
  append_assoc, append-nil, length-append,
}
use chat.Chat.{Text, Chat}
use chat.Endianness.{IsU32, e_htole16, e_htole32, le_bytes, le_value, length-le_bytes}
use chat.Buffer.{Bytes, read_bytes, read_u32, read_bytes_at, read_u32_at}
use chat.Protocol.Header.{
  version, MessageType, msgtype, Message, status_code, ok, in_block, in_block-IsWellSized,
}
use chat.Protocol.Layout.Strings.{
  sum, lengths, write_lengths, write_strings, read_strings, read_strings_at, length-write_lengths,
  length-write_strings,
}

abbrev pub contents : List Text → List Str
contents [] = []
contents (t ∷ ts) = t.content_ ∷ contents ts

-- The region that the serialising loop fills through `sender_ptr`.
unfoldable pub write_senders : List Text → Bytes
write_senders [] = []
write_senders (t ∷ ts) = t.sender_ ∷ write_senders ts

unfoldable pub body_len : ℕ → Chat → ℕ
body_len stat_code c =
    if nat_eq stat_code (status_code ok)
    then (4 + (4 + length c.texts_ * (1 + 4)) + sum (lengths (contents c.texts_))) % 2 ^ 32
    else 4

unfoldable pub body : ℕ → Chat → Bytes
body stat_code c =
    le_bytes 4 (e_htole32 stat_code)
    ++ (if nat_eq stat_code (status_code ok)
        then le_bytes 4 (e_htole32 (length c.texts_ % 2 ^ 32))
          ++ (write_senders c.texts_
              ++ (write_lengths (contents c.texts_) ++ write_strings (contents c.texts_)))
        else [])

-- What is written behind the header, and the length that the header tells.
unfoldable pub message : MessageType → ℕ → Chat → Message
message type stat_code c = record {
  hdr_ = record {
    version_ = e_htole16 version;
    type_ = e_htole16 (msgtype type);
    body_len_ = e_htole32 (body_len stat_code c);
  };
  body_ = body stat_code c;
}

unfoldable pub serialize : MessageType → ℕ → Chat → Outcome Message
unfolding message
serialize type stat_code c = in_block (message type stat_code c)

-- The loop that fills `senders` and `txt_lens`, with the `uint32_t` sum of the lengths.
unfoldable pub read_heads : Bytes → ℕ → ℕ → ℕ → ℕ → Outcome (List ℕ × List ℕ × ℕ)
read_heads d zero sender_off len_off total = done ([], [], total)
read_heads d (suc n) sender_off len_off total = do
  s ← read_bytes d sender_off 1
  l ← read_u32 d len_off
  rest ← read_heads d n (sender_off + 1) (len_off + 4) ((total + l) % 2 ^ 32)
  done (le_value s ∷ rest.0, l ∷ rest.1, rest.2)

-- `c.texts_[i].sender_ = senders[i]; c.texts_[i].content_.assign(…)`
unfoldable pub join : List ℕ → List Str → List Text
join [] us = []
join (s ∷ ss) [] = []
join (s ∷ ss) (u ∷ us) = record { sender_ = s; content_ = u } ∷ join ss us

-- The part behind an OK status code.
unfoldable pub deserialize_texts : Bytes → ℕ → Outcome (ℕ × Chat)
deserialize_texts d stat_code = if ltb (length d) (2 * 4) then fail body_error else do
  n ← read_u32 d 4
  if ltb (length d) (2 * 4 + n * (1 + 4)) then fail body_error else do
    heads ← read_heads d n 8 (8 + n * 1) 0
    if not (nat_eq (length d) (2 * 4 + n * (1 + 4) + heads.2)) then fail body_error else do
      us ← read_strings d heads.1 (8 + n * (1 + 4))
      done (stat_code, record { texts_ = join heads.0 us })

-- The last argument is the chat that the caller passes in: another status leaves it alone.
unfoldable pub deserialize : Bytes → Chat → Outcome (ℕ × Chat)
unfolding deserialize_texts
deserialize d c = if ltb (length d) 4 then fail body_error else do
  stat_code ← read_u32 d 0
  if not (nat_eq stat_code (status_code ok))
      then done (stat_code, c)
      else deserialize_texts d stat_code

abbrev pub senders : List Text → List ℕ
senders [] = []
senders (t ∷ ts) = t.sender_ ∷ senders ts

join-senders-contents : (ts : List Text) → join (senders ts) (contents ts) ≡ ts
unfolding join
join-senders-contents [] = refl
join-senders-contents (t ∷ ts) = ap (◌∷◌ t) (join-senders-contents ts)

length-write_senders : (ts : List Text) → length (write_senders ts) ≡ length ts
unfolding write_senders
length-write_senders [] = refl
length-write_senders (t ∷ ts) = ap suc (length-write_senders ts)

length-contents : (ts : List Text) → length (contents ts) ≡ length ts
length-contents [] = refl
length-contents (t ∷ ts) = ap suc (length-contents ts)

read_heads_at :
    (pre : Bytes) (ts : List Text) (mid : Bytes) (post : Bytes) (d : Bytes) (s_off l_off total : ℕ)
    → d ≡ pre ++ (write_senders ts ++ (mid ++ (write_lengths (contents ts) ++ post)))
    → s_off ≡ length pre
    → l_off ≡ length pre + length ts + length mid
    → total + sum (lengths (contents ts)) < 2 ^ 32
    → read_heads d (length ts) s_off l_off total
      ≡ done (senders ts, lengths (contents ts), total + sum (lengths (contents ts)))
unfolding read_heads write_senders write_lengths le_value
read_heads_at pre [] mid post d s_off l_off total e so lo h =
    ap done (ap (λ (t : ℕ). ([], [], t)) (omega arith))
read_heads_at pre (t ∷ ts) mid post d s_off l_off total e so lo h = ground (
  arith,
  read_bytes_at pre (t.sender_ ∷ []) (write_senders ts ++ (mid ++ (len_bytes ++ later))) {len = 1}
      (e ∙ simp append_assoc) so refl,
  read_u32_at (pre ++ (t.sender_ ∷ write_senders ts) ++ mid) (length t.content_ % 2 ^ 32) later
      {off = l_off} (e ∙ simp append_assoc) (omega (arith, off, lo)) (omega arith),
  read_heads_at (pre ++ (t.sender_ ∷ [])) ts (mid ++ len_bytes) post d (s_off + 1) (l_off + 4)
      ((total + length t.content_) % 2 ^ 32) (e ∙ simp append_assoc)
      (omega (arith, so, length-append pre (t.sender_ ∷ [])))
      (omega (
        arith,
        lo,
        length-append pre (t.sender_ ∷ []),
        length-append mid len_bytes,
        length-le_bytes 4 (length t.content_ % 2 ^ 32),
      ))
      (omega arith),
)
  where
    len_bytes : Bytes
    len_bytes = le_bytes 4 (length t.content_ % 2 ^ 32)

    later : Bytes
    later = write_lengths (contents ts) ++ post

    off :
        length (pre ++ (t.sender_ ∷ write_senders ts) ++ mid)
        ≡ length pre + suc (length ts) + length mid
    off = omega (
      arith,
      length-append (pre ++ (t.sender_ ∷ write_senders ts)) mid,
      length-append pre (t.sender_ ∷ write_senders ts),
      length-write_senders ts,
    )

module _ (c : Chat)
    (fits : 8 + 5 * length c.texts_ + sum (lengths (contents c.texts_)) < 2 ^ 32) where
  pub length-body_ok :
      length (body 0 c) ≡ 8 + 5 * length c.texts_ + sum (lengths (contents c.texts_))
  unfolding body
  length-body_ok = grind (
    arith,
    length-append,
    length-le_bytes,
    length-write_senders,
    length-write_lengths,
    length-write_strings (contents c.texts_) (omega (arith, fits)),
    length-contents,
  )

  read_status : read_u32 (body 0 c) 0 ≡ done 0
  unfolding body
  read_status = read_u32_at [] 0 _ refl refl (omega arith)

  read_count : read_u32 (body 0 c) 4 ≡ done (length c.texts_)
  unfolding body
  read_count =
      read_u32_at (le_bytes 4 0) (length c.texts_ % 2 ^ 32) _ refl (sym (length-le_bytes 4 _))
        (omega arith)
      ∙ ap done (omega arith)

  read_senders_lens :
      read_heads (body 0 c) (length c.texts_) 8 (8 + length c.texts_ * 1) 0
      ≡ done (senders c.texts_, lengths (contents c.texts_), sum (lengths (contents c.texts_)))
  unfolding body
  read_senders_lens =
      read_heads_at (le_bytes 4 0 ++ le_bytes 4 (length c.texts_ % 2 ^ 32)) c.texts_ []
        (write_strings (contents c.texts_)) _ 8 (8 + length c.texts_ * 1) 0 (simp append_assoc)
        (grind (arith, length-append, length-le_bytes))
        (grind (arith, length-append, length-le_bytes)) (omega arith)
      ∙ ap done (ap (λ (t : ℕ). (senders c.texts_, lengths (contents c.texts_), t)) (omega arith))

  read_contents :
      read_strings (body 0 c) (lengths (contents c.texts_)) (8 + length c.texts_ * (1 + 4))
      ≡ done (contents c.texts_)
  unfolding body
  read_contents =
      read_strings_at
        (le_bytes 4 0
          ++ le_bytes 4 (length c.texts_ % 2 ^ 32)
          ++ write_senders c.texts_
          ++ write_lengths (contents c.texts_))
        (contents c.texts_) [] _ _ (simp (append_assoc, append-nil))
        (grind (
          arith, length-append, length-le_bytes, length-write_senders, length-write_lengths,
          length-contents,
        ))
        (omega (arith, fits))

  pub serialize-fits : (t : MessageType) → serialize t 0 c ≡ done (message t 0 c)
  unfolding serialize body_len
  serialize-fits t = in_block-IsWellSized (message t 0 c) (ground (arith, length-body_ok))

  pub deserialize-body_ok : (old : Chat) → deserialize (body 0 c) old ≡ done (0, c)
  unfolding deserialize
  deserialize-body_ok old = ground (
    arith,
    length-body_ok,
    read_status,
    read_count,
    read_senders_lens,
    read_contents,
    join-senders-contents c.texts_,
  )

pub length-body_other : (n : ℕ) (c : Chat) → n ≢ 0 → length (body n c) ≡ 4
unfolding body
length-body_other n c other = ground (arith, length-le_bytes 4 n, append-nil (le_bytes 4 n))

pub serialize-other :
    (t : MessageType) (n : ℕ) (c : Chat) → n ≢ 0 → serialize t n c ≡ done (message t n c)
unfolding serialize body_len
serialize-other t n c other =
    in_block-IsWellSized (message t n c) (ground (arith, length-body_other n c other))

-- With another status the texts are neither written nor read.
pub deserialize-body_other :
    (n : ℕ) (c old : Chat) → IsU32 n → n ≢ 0 → deserialize (body n c) old ≡ done (n, old)
unfolding deserialize body
deserialize-body_other n c old h other = ground (
  arith,
  length-le_bytes 4 n,
  read_u32_at [] n [] {d = le_bytes 4 n} {off = 0} (simp append-nil) refl h,
  append-nil (le_bytes 4 n),
)
