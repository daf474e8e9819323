-- ===== src/Client/Sound.antt =====
-- The responses that the server forms, as the client checks them.
use chat.Common.{ℕ, ◌+◌, ◌*◌, ◌<◌, ◌^◌, ◌≡◌, ◌≢◌, refl, List, length, arith, Str}
use chat.Endianness.{length-le_bytes}
use chat.Chat.{Chat}
use chat.Protocol.Header.{Message, MessageType, version, msgtype, IsWellSized}
use chat.Protocol.Header.RoundTrip.{InRange}
use chat.Protocol.Layout.Code
use chat.Protocol.Layout.Names
use chat.Protocol.Layout.Texts
use chat.Protocol.Layout.Texts.{contents}
use chat.Protocol.Layout.Strings.{sum, lengths}

-- A response that the client takes as an answer, of which the header is right and the body is not
-- empty.
pub record Sound (m : Message) (type : MessageType) : Type 0 where
  pub sized : IsWellSized m
  pub in_range : InRange m.hdr_
  pub of_version : m.hdr_.version_ ≡ version
  pub of_type : m.hdr_.type_ ≡ msgtype type
  pub some_body : 0 < length m.body_

pub Code-Sound : (t : MessageType) (c : ℕ) → msgtype t < 2 ^ 16 → Sound (Code.serialize t c) t
unfolding Code.serialize
Code-Sound t c h = record {
  sized = length-le_bytes 4 c;
  in_range = record { version_fits = omega arith; type_fits = h; body_len_fits = omega arith };
  of_version = refl;
  of_type = refl;
  some_body = omega (arith, length-le_bytes 4 c);
}

pub Names-Sound :
    (t : MessageType) (us : List Str)
    → msgtype t < 2 ^ 16
    → 8 + 4 * length us + sum (lengths us) < 2 ^ 32
    → Sound (Names.message t 0 us) t
unfolding Names.message Names.body_len
Names-Sound t us h fits = record {
  sized = ground (arith, Names.length-body_ok us fits);
  in_range = record { version_fits = omega arith; type_fits = h; body_len_fits = omega arith };
  of_version = refl;
  of_type = refl;
  some_body = omega (arith, Names.length-body_ok us fits);
}

pub Names-other-Sound :
    (t : MessageType) (c : ℕ) (us : List Str)
    → msgtype t < 2 ^ 16
    → c ≢ 0
    → Sound (Names.message t c us) t
unfolding Names.message Names.body_len
Names-other-Sound t c us h other = record {
  sized = ground (arith, Names.length-body_other c us other);
  in_range = record { version_fits = omega arith; type_fits = h; body_len_fits = ground arith };
  of_version = refl;
  of_type = refl;
  some_body = omega (arith, Names.length-body_other c us other);
}

pub Texts-Sound :
    (c : Chat)
    → 8 + 5 * length c.texts_ + sum (lengths (contents c.texts_)) < 2 ^ 32
    → Sound (Texts.message MessageType.recv_txt_response 0 c) MessageType.recv_txt_response
unfolding Texts.message Texts.body_len
Texts-Sound c fits = record {
  sized = ground (arith, Texts.length-body_ok c fits);
  in_range = record {
    version_fits = omega arith;
    type_fits = omega arith;
    body_len_fits = omega arith;
  };
  of_version = refl;
  of_type = refl;
  some_body = omega (arith, Texts.length-body_ok c fits);
}

pub Texts-other-Sound :
    (n : ℕ) (c : Chat)
    → n ≢ 0
    → Sound (Texts.message MessageType.recv_txt_response n c) MessageType.recv_txt_response
unfolding Texts.message Texts.body_len
Texts-other-Sound n c other = record {
  sized = ground (arith, Texts.length-body_other n c other);
  in_range = record {
    version_fits = omega arith;
    type_fits = omega arith;
    body_len_fits = ground arith;
  };
  of_version = refl;
  of_type = refl;
  some_body = omega (arith, Texts.length-body_other n c other);
}
