-- ===== src/Interface/Screens/Names.antt =====
-- The name and the password that `registration` asks for, and what the server refuses.
use chat.Common.{
  ℕ, zero, suc, ◌<◌, ◌≤◌, ◌≡◌, refl, Bool, true, false, List, [], ◌∷◌, ◌++◌, length, All, arith,
  Str, done, Within, Within-done, Within-bind, Within-cases, Within-map,
}
use chat.Server.{has_star_or_space, username_refused, password_refused}
use chat.Interface.Keypress.{Keypress, escape}
use chat.Interface.Line.{get_user_string}
use chat.Interface.Line.Editing.{IsEdit, edit_all, read_string-escape, get_user_string-IsLine}
use chat.Interface.State.{Interface}
use chat.Interface.Screens
use chat.Interface.Screens.{ask_username, ask_password}

-- What the loop returns: a line with no star or space in it.
abbrev pub IsName : List Keypress → Str × Bool × List Keypress → Type 0
IsName ks r =
    (r.1 ≡ false → (4 ≤ length r.0) × (length r.0 ≤ 40))
    × (has_star_or_space r.0 ≡ false)
    × (length r.2 < length ks)

pub ask_username-IsName :
    (f : ℕ) (ks : List Keypress) → length ks < f → Within (IsName ks) (ask_username f ks)
unfolding ask_username
ask_username-IsName zero ks h = absurd (omega arith)
ask_username-IsName (suc f) ks h =
    Within-bind (get_user_string 4 40 ks) _ (get_user_string-IsLine 4 40 ks) λ r q.
      Within-cases (has_star_or_space r.0) (ask_username f r.2) (done r)
        (λ e.
          Within-map (λ s p. (p.0, p.1, omega (arith, p.2, q.1)))
            (ask_username-IsName f r.2 (omega (arith, q.1))))
        λ e. Within-done r (q.0, e, q.1)

-- If keys other than Enter and ESC have written a line with a star or a space in it, ESC behind them
-- does not leave the loop: it asks for another line.
pub ask_username-escape :
    (f : ℕ) (ks rest : List Keypress)
    → All IsEdit ks
    → has_star_or_space (edit_all [] ks) ≡ true
    → ask_username (suc f) (ks ++ (escape ∷ rest)) ≡ ask_username f rest
unfolding ask_username get_user_string
ask_username-escape f ks rest h starred =
    rw (read_string-escape 4 40 ks rest [] h) (rw starred refl)

module _ {S : Type 0} where
  ask_password-IsLine :
      (i : Interface S)
      → Within
          (λ (i' : Interface S).
            (i'.hit_escape_ ≡ false → (4 ≤ length i'.password_) × (length i'.password_ ≤ 60))
            × (i'.username_ ≡ i.username_))
          (ask_password i)
  unfolding ask_password
  ask_password-IsLine i =
      Within-bind (get_user_string 4 60 i.keys) _ (get_user_string-IsLine 4 60 i.keys)
        λ r q. Within-done _ (q.0, refl)

  abbrev pub IsAccepted : Interface S → Type 0
  IsAccepted i =
      i.hit_escape_ ≡ false
      → (username_refused i.username_ ≡ false) × (password_refused i.password_ ≡ false)

  -- The screen halts only to wait for a key, and if it returns with no ESC, then with a username and a
  -- password that the server's handler refuses neither for its length nor for its characters.
  pub registration-IsAccepted : (i : Interface S) → Within IsAccepted (Screens.registration i)
  unfolding Screens.registration username_refused password_refused
  registration-IsAccepted i =
      Within-bind (ask_username (suc (length i.keys)) i.keys) _
        (ask_username-IsName (suc (length i.keys)) i.keys (omega arith))
        λ r q.
          let i1 = record i { username_ = r.0; hit_escape_ = r.1; keys = r.2 } in
          Within-cases r.1 (done i1) (ask_password i1) (λ e. Within-done i1 λ e'. absurd (cc))
            λ e.
              Within-map (λ i' p n. (ground (arith, q.0 e, q.1, p.1), ground (arith, p.0 n)))
                (ask_password-IsLine i1)
