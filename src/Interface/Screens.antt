-- ===== src/Interface/Screens.antt =====
-- The methods that show a screen, by what they read from the user. What they print is left out.
pub mod Names
use chat.Common.{
  ℕ, zero, suc, ◌+◌, Bool, true, false, List, [], ◌∷◌, length, if◌then◌else◌, Str, Outcome, done,
  halt, waiting, out_of_fuel, ◌>>=◌,
}
use chat.Server.{has_star_or_space}
use chat.Interface.Keypress.{Keypress}
use chat.Interface.Selection.{make_selection}
use chat.Interface.Line.{get_user_string, get_user_txt}
use chat.Interface.State.{Interface}

unfoldable pub wait_anykey : List Keypress → Outcome (List Keypress)
wait_anykey [] = halt waiting
wait_anykey (k ∷ ks) = done ks

-- The `do`-`while` loop of `registration`, one line on each unit of fuel.
unfoldable pub ask_username : ℕ → List Keypress → Outcome (Str × Bool × List Keypress)
ask_username zero ks = halt out_of_fuel
ask_username (suc f) ks = do
  r ← get_user_string 4 40 ks
  let again = ask_username f r.2
  if has_star_or_space r.0 then again else done r

module _ {S : Type 0} where
  -- A menu of `n` choices.
  unfoldable pub menu : ℕ → Interface S → Outcome (ℕ × Interface S)
  menu n i = do r ← make_selection n i.keys; done (r.0, record i { keys = r.1 })

  -- A screen that waits for any key.
  unfoldable pub notice : Interface S → Outcome (Interface S)
  unfolding wait_anykey
  notice i = do ks ← wait_anykey i.keys; done (record i { keys = ks })

  unfoldable pub ask_password : Interface S → Outcome (Interface S)
  ask_password i = do
    r ← get_user_string 4 60 i.keys
    done (record i { password_ = r.0; hit_escape_ = r.1; keys = r.2 })

  unfoldable pub login_registration : Interface S → Outcome (ℕ × Interface S)
  unfolding menu
  login_registration i = menu 3 i

  unfoldable pub login : Interface S → Outcome (Interface S)
  unfolding ask_password
  login i = do
    r ← get_user_string 4 40 i.keys
    let i1 = record i { username_ = r.0; hit_escape_ = r.1; keys = r.2 }
    if i1.hit_escape_ then done i1 else ask_password i1

  unfoldable pub login_fail : Interface S → Outcome (ℕ × Interface S)
  unfolding menu
  login_fail i = menu 2 i

  -- Each line of `ask_username` takes a key.
  unfoldable pub registration : Interface S → Outcome (Interface S)
  unfolding ask_password
  registration i = do
    r ← ask_username (suc (length i.keys)) i.keys
    let i1 = record i { username_ = r.0; hit_escape_ = r.1; keys = r.2 }
    if i1.hit_escape_ then done i1 else ask_password i1

  unfoldable pub registration_fail : Interface S → Outcome (ℕ × Interface S)
  unfolding menu
  registration_fail i = menu 2 i

  unfoldable pub main_menu : Interface S → Outcome (ℕ × Interface S)
  unfolding menu
  main_menu i = menu 4 i

  unfoldable pub search_accounts : Interface S → Outcome (Interface S)
  search_accounts i = do
    r ← get_user_string 1 40 i.keys
    done (record i { pattern_ = r.0; hit_escape_ = r.1; keys = r.2 })

  -- Two choices stand in front of the chats.
  unfoldable pub open_chats_success : Interface S → Outcome (ℕ × Interface S)
  unfolding menu
  open_chats_success i = menu (2 + length i.all_correspondents_) i

  unfoldable pub new_chat : Interface S → Outcome (Interface S)
  new_chat i = do
    r ← get_user_string 4 40 i.keys
    done (record i { correspondent_ = r.0; hit_escape_ = r.1; keys = r.2 })

  unfoldable pub type_text : Interface S → Outcome (Interface S)
  type_text i = do
    r ← get_user_txt i.partial_txt_ i.keys
    done (record i { partial_txt_ = r.0; hit_escape_ = r.1; keys = r.2 })

  unfoldable pub delete_account : Interface S → Outcome (ℕ × Interface S)
  unfolding menu
  delete_account i = menu 2 i
