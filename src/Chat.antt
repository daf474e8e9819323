-- ===== src/Chat.antt =====
-- include/common/chat.h
use chat.Common.{ℕ, List, Str}

pub record Text : Type 0 where
  pub sender_ : ℕ
  pub content_ : Str

abbrev pub sender_you : ℕ
sender_you = 0

abbrev pub sender_other : ℕ
sender_other = 1

pub record Chat : Type 0 where
  pub texts_ : List Text
