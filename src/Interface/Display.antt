-- ===== src/Interface/Display.antt =====
-- What src/client/interface.cc writes to the terminal while the user types a text: the echo of the
-- keys in `interface::get_user_txt`, and `interface::draw_send_txt`, by which the listener of
-- `interface::background_listener` shows texts that have come in.
pub mod Typing
pub mod Menu
pub mod Marked
use Prim.Native.Char.{code}
use Prim.Native.String.{String}
use chat.Common.{ℕ, ◌≤◌, ◌<◌, ◌≡◌, List, [], ◌∷◌, ◌++◌, Str, nat_eq, if◌then◌else◌, length}
use chat.Chat.{Text, Chat, sender_you}
use chat.Interface.Keypress.{
  Keypress, regular, escape, enter, backspace, uparrow, downarrow, unknown,
}
use chat.Interface.State.{Interface}
use chat.Interface.Line.{pop_back}
use chat.Interface.Line.Editing.{edit}

-- The bytes of a literal, which is ASCII.
abbrev pub bytes : String → Str
bytes String.[] = []
bytes (String.◌∷◌ c s) = code c ∷ bytes s

abbrev pub IsPrintable : ℕ → Type 0
IsPrintable c = (32 ≤ c) × (c < 127)

-- A terminal, and what is relied on of it where the line does not reach the edge: `line` is what
-- stands on the cursor's line in front of the cursor.
pub record Terminal (T : Type 0) : Type 0 where
  pub clear : T → T
  pub put : ℕ → T → T
  pub line : T → Str
  pub line-put_newline : (t : T) → line (put 10 t) ≡ []
  pub line-put : (t : T) (c : ℕ) → IsPrintable c → line (put c t) ≡ line t ++ (c ∷ [])
  -- a backspace, a space and a backspace
  pub line-rubout : (t : T) → line (put 8 (put 32 (put 8 t))) ≡ pop_back (line t)

-- What `get_user_txt` writes on a key, where `txt` is `partial_txt_`.
unfoldable pub echo : Str → Keypress → Str
echo [] backspace = []
echo (c ∷ txt) backspace = 8 ∷ 32 ∷ 8 ∷ []
echo txt enter = 10 ∷ []
echo txt (regular c) = c ∷ []
echo txt escape = []
echo txt uparrow = []
echo txt downarrow = []
echo txt unknown = []

abbrev rule : Str
rule = bytes "================================================================================\n"

-- The loop over the texts of the chat.
unfoldable pub drawn_texts : Str → Str → List Text → Str
drawn_texts you other [] = []
drawn_texts you other (t ∷ ts) =
    (if nat_eq t.sender_ sender_you then you ++ bytes " (you): " else other ++ bytes ": ")
    ++ t.content_
    ++ bytes "\n\n"
    ++ drawn_texts you other ts

abbrev pub prompt : Str
prompt = bytes "Chat262> "

abbrev empty_notice : List Text → Str
empty_notice [] = bytes "This chat is empty. Start chatting now!\n"
empty_notice (t ∷ ts) = []

abbrev pub put_all : {T : Type 0} → Terminal T → Str → T → T
put_all o [] t = t
put_all o (c ∷ s) t = put_all o s (o.put c t)

-- What happens while the user types: a key is read, or the listener has received the chat anew,
-- and draws it if its number of texts is another. Each holds `mutex_`.
pub data Moment : Type 0 where
  typed : Keypress → Moment
  received : Chat → Moment

-- What `draw_send_txt` writes behind its `clear_screen`, without the prompt.
abbrev pub closing : Str
closing = bytes "Type your message and press ENTER when you're done. Press ESC to cancel.\n\n"

module _ {S : Type 0} where
  unfoldable pub opening : Interface S → Str
  unfolding drawn_texts
  opening i =
      bytes "\n*** Chat262 ***\n\nYour chat with "
      ++ i.correspondent_
      ++ bytes "\n\n"
      ++ rule
      ++ empty_notice i.curr_chat_.texts_
      ++ drawn_texts i.username_ i.correspondent_ i.curr_chat_.texts_
      ++ rule
      ++ bytes "\n"

  module _ {T : Type 0} (o : Terminal T) where
    unfoldable pub draw_send_txt : Interface S → T → T
    unfolding opening
    draw_send_txt i t =
        put_all o i.partial_txt_ (put_all o prompt (put_all o (opening i ++ closing) (o.clear t)))

    unfoldable pub moment : Moment → Interface S × T → Interface S × T
    unfolding echo draw_send_txt
    moment (typed k) (i, t) =
        (record i { partial_txt_ = edit i.partial_txt_ k }, put_all o (echo i.partial_txt_ k) t)
    moment (received c) (i, t) =
        let i1 = record i { curr_chat_ = c } in
        if nat_eq (length i.curr_chat_.texts_) (length c.texts_)
        then (i1, t)
        else (i1, draw_send_txt i1 t)

    unfoldable pub moments : List Moment → Interface S × T → Interface S × T
    unfolding moment
    moments [] s = s
    moments (m ∷ ms) s = moments ms (moment m s)
