-- ===== src/Protocol/Lookup.antt =====
-- `message_type_lookup` and `status_code_lookup`
use Prim.Native.String.{String}
use text.Mathlib.Text.{◌==◌}
use text.Mathlib.TextEquality.{eq_iff}
use chat.Common.{ℕ, ◌≡◌, ◌≢◌, ◌↔◌, refl, false, nat_eq, if◌then◌else◌}
use chat.Protocol.Header.{StatusCode, status_code}

unfoldable pub message_type_lookup : ℕ → String
message_type_lookup t =
    if nat_eq t 101
    then "Registration request"
    else if nat_eq t 201
    then "Registration response"
    else if nat_eq t 102
    then "Login request"
    else if nat_eq t 202
    then "Login response"
    else if nat_eq t 103
    then "Logout request"
    else if nat_eq t 203
    then "Logout response"
    else if nat_eq t 104
    then "List accounts request"
    else if nat_eq t 204
    then "List accounts response"
    else if nat_eq t 105
    then "Send text request"
    else if nat_eq t 205
    then "Send text response"
    else if nat_eq t 106
    then "Receive text request"
    else if nat_eq t 206
    then "Receive text response"
    else if nat_eq t 107
    then "Correspondents request"
    else if nat_eq t 207
    then "Correspondents response"
    else if nat_eq t 108
    then "Delete account request"
    else if nat_eq t 208
    then "Delete account response"
    else if nat_eq t 301
    then "Wrong version response"
    else if nat_eq t 302
    then "Invalid type response"
    else if nat_eq t 303
    then "Invalid body response"
    else "Unknown"

unfoldable pub status_code_lookup : ℕ → String
status_code_lookup c =
    if nat_eq c 0
    then "OK"
    else if nat_eq c 1
    then "Invalid credentials"
    else if nat_eq c 2
    then "Username already exists"
    else if nat_eq c 3
    then "User does not exist"
    else if nat_eq c 4
    then "Invalid username"
    else if nat_eq c 5
    then "Invalid password"
    else "Unknown"

differs : (s t : String) → (s == t) ≡ false → s ≢ t
differs s t h e = cc (h, (eq_iff s t).1 e)

-- Of the protocol's status codes, `status_code_lookup` answers "Unknown" for `unauthorized` and for
-- no other.
pub status_code_lookup-eq-unknown :
    (c : StatusCode)
    → (status_code_lookup (status_code c) ≡ "Unknown") ↔ (c ≡ StatusCode.unauthorized)
unfolding status_code_lookup
status_code_lookup-eq-unknown StatusCode.ok = (λ e. absurd (differs "OK" "Unknown" refl e), λ e. cc)
status_code_lookup-eq-unknown StatusCode.invalid_credentials =
    (λ e. absurd (differs "Invalid credentials" "Unknown" refl e), λ e. cc)
status_code_lookup-eq-unknown StatusCode.user_exists =
    (λ e. absurd (differs "Username already exists" "Unknown" refl e), λ e. cc)
status_code_lookup-eq-unknown StatusCode.user_noexist =
    (λ e. absurd (differs "User does not exist" "Unknown" refl e), λ e. cc)
status_code_lookup-eq-unknown StatusCode.username_invalid =
    (λ e. absurd (differs "Invalid username" "Unknown" refl e), λ e. cc)
status_code_lookup-eq-unknown StatusCode.password_invalid =
    (λ e. absurd (differs "Invalid password" "Unknown" refl e), λ e. cc)
status_code_lookup-eq-unknown StatusCode.unauthorized = (λ e. refl, λ e. refl)
