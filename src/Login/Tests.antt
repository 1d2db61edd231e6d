-- ===== src/Login/Tests.antt =====
-- The theorems on the login at concrete guesses.
use icos_v.Login.Session.{
  SessionPayload, admin, Codec, object, create_session, verify_session, signed, accept, last_dot,
  verify_session-create_session, verify_session-signed,
}
use icos_v.Base.{
  leb, ℕ, ◌≤◌, String, true, none, some, List, [], ◌∷◌, ◌≡◌, ◌≢◌, refl, arith, eq_iff, false,
  str_eq, sym, ◌∙◌, map,
}
use icos_v.Base.Exec.{Clock}
use icos_v.Login.{Attempts, Config, refused, rate_limited, login}
use icos_v.Login.Cookies.{join, verify, csrf_matches, login_cookies, serialize_cookie, split_pairs}
use icos_v.Login.Values.{is_value}
use icos_v.Login.Header.{cookie_pair, verify-login_cookies}
use icos_v.Login.Throttle.{Guess, tested, tried, guesses_bounded, login_locked}

abbrev the_config : Config
the_config = record { auth_enabled = true; token = "right" }

abbrev at : ℕ → Clock
at now n = now

abbrev three_guesses : List Guess
three_guesses = (at 2, "b") ∷ (at 3, "c") ∷ []

abbrev nobody : Attempts
nobody ip = none

wrong : (raw : String) → str_eq raw "right" ≡ false → raw ≢ "right"
wrong raw h e = cc (sym h ∙ (eq_iff raw "right").1 e)

guesses_bounded_example : tested the_config "10.0.0.1" ((at 1, "a") ∷ three_guesses) nobody ≤ 10
guesses_bounded_example =
    guesses_bounded the_config "10.0.0.1" "a" (at 1) three_guesses nobody refl refl (wrong "a" refl)
      ((wrong "b" refl, (λ n. omega arith)), ((wrong "c" refl, (λ n. omega arith)), tt))

abbrev nine_guesses : List Guess
nine_guesses =
    (at 2, "b")
    ∷ (at 3, "c")
    ∷ (at 4, "d")
    ∷ (at 5, "e")
    ∷ (at 6, "f")
    ∷ (at 7, "g")
    ∷ (at 8, "h")
    ∷ (at 9, "i")
    ∷ (at 10, "j")
    ∷ []

login_locked_example :
    (login the_config
      (at 11)
      "session"
      "csrf"
      "right"
      "10.0.0.1"
      (tried the_config "10.0.0.1" ((at 1, "a") ∷ nine_guesses) nobody)).0
    ≡ refused rate_limited
login_locked_example =
    login_locked the_config "10.0.0.1" "a" "session" "csrf" (at 1) (at 11) nine_guesses nobody refl
      refl (wrong "a" refl)
      (
        (wrong "b" refl, (λ n. omega arith)),
        (
          (wrong "c" refl, (λ n. omega arith)),
          (
            (wrong "d" refl, (λ n. omega arith)),
            (
              (wrong "e" refl, (λ n. omega arith)),
              (
                (wrong "f" refl, (λ n. omega arith)),
                (
                  (wrong "g" refl, (λ n. omega arith)),
                  (
                    (wrong "h" refl, (λ n. omega arith)),
                    (
                      (wrong "i" refl, (λ n. omega arith)),
                      ((wrong "j" refl, (λ n. omega arith)), tt),
                    ),
                  ),
                ),
              ),
            ),
          ),
        ),
      )
      (omega arith)

abbrev the_payload : SessionPayload
the_payload = record { sub = "admin"; role = admin; iat = 1000; exp = 61000 }

-- A signature that is the secret, and an encoding of one payload.
abbrev one_payload : Codec
one_payload = record {
  Secret = String;
  sign = λ secret content. secret;
  encode = λ payload. "payload";
  decode = λ content. object (some 61000) (some admin) (some "admin") 1000;
}

verify_session-create_session_example :
    verify_session one_payload "key"
      (some (create_session one_payload "key" admin 60000 1000).0)
      2000
    ≡ some (create_session one_payload "key" admin 60000 1000).1
unfolding last_dot
verify_session-create_session_example =
    verify_session-create_session one_payload "key" admin 60000 1000 2000 refl refl refl

verified : verify_session one_payload "key" (some "payload.key") 2000 ≡ some the_payload
unfolding verify_session last_dot
verified = refl

verify_session-signed_example :
    (content : String) × ("payload.key" ≡ signed one_payload "key" content)
    × (accept 2000 (one_payload.decode content) ≡ some the_payload)
    × (leb 61000 2000 ≡ false)
verify_session-signed_example =
    verify_session-signed one_payload "key" "payload.key" 2000 the_payload verified

forged : verify_session one_payload "key" (some "payload.kex") 2000 ≡ none
unfolding verify_session last_dot
forged = refl

plain : (is_value "payload.key" ≡ true) × (is_value "Zm9v" ≡ true)
unfolding is_value
plain = (refl, refl)

abbrev digits : ℕ → String
digits n = "60"

abbrev set_cookies : List String
set_cookies = login_cookies digits true 60000 "payload.key" "Zm9v"

-- A browser that sends the pairs of all cookies.
abbrev all_pairs : List String → String
all_pairs cookies = join (map cookie_pair cookies)

verify-login_cookies_example :
    (verify one_payload true "key" (some (all_pairs set_cookies)) 2000
      ≡ verify_session one_payload "key" (some "payload.key") 2000)
    × (csrf_matches (some (all_pairs set_cookies)) (some "Zm9v") ≡ true)
verify-login_cookies_example =
    verify-login_cookies one_payload "key" all_pairs digits true 60000 "payload.key" "Zm9v" 2000
      refl (plain.0) (plain.1) refl

sent_text : all_pairs set_cookies ≡ "icos_session=payload.key; icos_csrf=Zm9v"
unfolding login_cookies serialize_cookie split_pairs join
sent_text = refl

set_text :
    set_cookies
    ≡ "icos_session=payload.key; Path=/; Max-Age=60; SameSite=Strict; HttpOnly; Secure"
      ∷ "icos_csrf=Zm9v; Path=/; Max-Age=60; SameSite=Strict; Secure" ∷ []
unfolding login_cookies serialize_cookie join
set_text = refl
