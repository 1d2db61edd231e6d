-- ===== src/Login/Throttle.antt =====
-- How many guesses of the token one address has in a window.
use icos_v.Base.{
  ℕ, suc, ◌+◌, ◌-◌, ◌≤◌, ◌<◌, String, true, false, Option, none, some, List, [], ◌∷◌, str_eq, leb,
  if◌then◌else◌, ◌≡◌, ◌≢◌, refl, arith, eq_iff, eq_refl, Bool-cases, inl, inr, All, length,
}
use icos_v.Base.Exec.{Clock}
use icos_v.Login.{
  login_max_attempts, login_window_ms, Attempt, Attempts, put, invalid, rate_limited, LoginResult,
  accepted, refused, Config, login,
}

-- A login with the clock of its readings and the text that was typed.
abbrev pub Guess : Type 0
Guess = Clock × String

abbrev pub compared : LoginResult → ℕ
compared (refused rate_limited) = 0
compared _ = 1

-- How many of the guesses are compared with the token.
unfoldable pub tested : Config → String → List Guess → Attempts → ℕ
tested config ip [] attempts = 0
tested config ip ((clock, raw) ∷ guesses) attempts =
    let (result, after) = login config clock "" "" raw ip attempts in
    compared result + tested config ip guesses after

abbrev pub IsWrongBefore : Config → ℕ → Guess → Type 0
IsWrongBefore config reset (clock, raw) = (raw ≢ config.token) × ((n : ℕ) → clock n < reset)

late_false : (reset now : ℕ) → now < reset → leb reset now ≡ false
late_false reset now h = ground arith

wrong_false : (raw token : String) → raw ≢ token → str_eq raw token ≡ false
wrong_false raw token h = ground (arith, eq_iff raw token)

login-wrong :
    (config : Config) (clock : Clock) (session csrf raw ip : String) (attempts : Attempts)
    (count reset : ℕ)
    → config.auth_enabled ≡ true
    → attempts ip ≡ some (record { count = count; reset_at = reset })
    → raw ≢ config.token
    → ((n : ℕ) → clock n < reset)
    → login config clock session csrf raw ip attempts ≡ (
        if leb login_max_attempts count then (refused rate_limited, attempts) else (
          refused invalid,
          put ip (some (record { count = suc count; reset_at = reset })) attempts,
        ))
unfolding login
login-wrong config clock session csrf raw ip attempts count reset on known wrong early =
    rw (on, known, login)
      (rw (late_false reset (clock 0) (early 0)) (elim (Bool-cases (leb login_max_attempts count)) [
        | inl many ↦ rw many refl
        | inr few ↦ rw few (
            rw (wrong_false raw config.token wrong)
              (rw (known, late_false reset (clock 1) (early 1)) refl))
      ]))

few_left : (count : ℕ) → leb login_max_attempts count ≡ false → count < login_max_attempts
few_left count h = ground arith

many_true : (count : ℕ) → login_max_attempts ≤ count → leb login_max_attempts count ≡ true
many_true count h = ground arith

login-first :
    (config : Config) (clock : Clock) (raw ip : String) (attempts : Attempts)
    → config.auth_enabled ≡ true
    → attempts ip ≡ none
    → raw ≢ config.token
    → login config clock "" "" raw ip attempts ≡ (
      refused invalid,
      put ip (some (record { count = 1; reset_at = clock 1 + login_window_ms })) attempts,
    )
unfolding login
login-first config clock raw ip attempts on fresh wrong =
    rw (on, fresh, login) (rw (wrong_false raw config.token wrong) (rw fresh refl))

put-here :
    (ip : String) (entry : Option Attempt) (attempts : Attempts) → put ip entry attempts ip ≡ entry
put-here ip entry attempts = ground (arith, eq_refl ip)

-- The right token, from an address with ten failures or more.
right_token :
    (config : Config) (clock : Clock) (session csrf ip : String) (attempts : Attempts)
    (count reset : ℕ)
    → config.auth_enabled ≡ true
    → attempts ip ≡ some (record { count = count; reset_at = reset })
    → login_max_attempts ≤ count
    → (login config clock session csrf config.token ip attempts).0
      ≡ (if leb reset (clock 0) then accepted session csrf else refused rate_limited)
unfolding login
right_token config clock session csrf ip attempts count reset on known full =
    rw (on, known, login)
      (elim (Bool-cases (leb reset (clock 0))) [
        | inl late ↦ rw late (rw (eq_refl config.token) refl)
        | inr early ↦ rw (early, many_true count full) refl
      ])

-- While the login is enabled, an address whose window is still open has `10 - count` guesses of the
-- token left: of any sequence of wrong guesses before the window's end, no more are compared with it.
pub tested_bounded :
    (config : Config) (ip : String) (count reset : ℕ) (guesses : List Guess) (attempts : Attempts)
    → config.auth_enabled ≡ true
    → attempts ip ≡ some (record { count = count; reset_at = reset })
    → All (IsWrongBefore config reset) guesses
    → tested config ip guesses attempts ≤ login_max_attempts - count
unfolding tested
tested_bounded config ip count reset [] attempts on known h = omega arith
tested_bounded config ip count reset ((clock, raw) ∷ guesses) attempts on known
      ((wrong, early), h) =
    rw (login-wrong config clock "" "" raw ip attempts count reset on known wrong early)
      (elim (Bool-cases (leb login_max_attempts count)) [
        | inl many ↦
            let rest = tested_bounded config ip count reset guesses attempts on known h in
            rw many (omega (arith, rest))
        | inr few ↦
            let open_still = few_left count few in
            let after = put ip (some (record { count = suc count; reset_at = reset })) attempts in
            let rest =
              tested_bounded config ip (suc count) reset guesses after on (put-here ip _ attempts)
                h in
            rw few (omega (arith, rest, open_still))
      ])

-- From an address with no failure on record, of any sequence of wrong guesses before the window that
-- the first of them opens ends, at most ten are compared with the token.
pub guesses_bounded :
    (config : Config) (ip raw : String) (clock : Clock) (guesses : List Guess) (attempts : Attempts)
    → config.auth_enabled ≡ true
    → attempts ip ≡ none
    → raw ≢ config.token
    → All (IsWrongBefore config (clock 1 + login_window_ms)) guesses
    → tested config ip ((clock, raw) ∷ guesses) attempts ≤ login_max_attempts
unfolding tested
guesses_bounded config ip raw clock guesses attempts on fresh wrong h =
    rw (login-first config clock raw ip attempts on fresh wrong) (
      let rest =
        tested_bounded config ip 1 (clock 1 + login_window_ms) guesses
          (put ip (some (record { count = 1; reset_at = clock 1 + login_window_ms })) attempts) on
          (put-here ip _ attempts) h in
      omega (arith, rest))

-- The failures on record after the guesses.
unfoldable pub tried : Config → String → List Guess → Attempts → Attempts
tried config ip [] attempts = attempts
tried config ip ((clock, raw) ∷ guesses) attempts =
    tried config ip guesses (login config clock "" "" raw ip attempts).1

-- The window stays as it is, and the count goes up to ten.
tried-counted :
    (config : Config) (ip : String) (count reset : ℕ) (guesses : List Guess) (attempts : Attempts)
    → config.auth_enabled ≡ true
    → attempts ip ≡ some (record { count = count; reset_at = reset })
    → All (IsWrongBefore config reset) guesses
    → login_max_attempts ≤ count + length guesses
    → (n : ℕ) × (login_max_attempts ≤ n)
      × (tried config ip guesses attempts ip ≡ some (record { count = n; reset_at = reset }))
unfolding tried
tried-counted config ip count reset [] attempts on known h many =
    (count, omega (arith, many), known)
tried-counted config ip count reset ((clock, raw) ∷ guesses) attempts on known ((wrong, early), h)
      many =
    rw (login-wrong config clock "" "" raw ip attempts count reset on known wrong early)
      (elim (Bool-cases (leb login_max_attempts count)) [
        | inl full ↦
            rw full (
              tried-counted config ip count reset guesses attempts on known h
                (ground (arith, full)))
        | inr few ↦
            let after = put ip (some (record { count = suc count; reset_at = reset })) attempts in
            rw few (
              tried-counted config ip (suc count) reset guesses after on (put-here ip _ attempts) h
                (omega (arith, many)))
      ])

-- Once an address with no failure on record has made ten or more wrong guesses before the end of the
-- window that the first of them opened, the right token is refused as rate limited until that end, and
-- accepted from then on. The login is enabled.
pub login_locked :
    (config : Config) (ip raw session csrf : String) (clock last : Clock) (guesses : List Guess)
    (attempts : Attempts)
    → config.auth_enabled ≡ true
    → attempts ip ≡ none
    → raw ≢ config.token
    → All (IsWrongBefore config (clock 1 + login_window_ms)) guesses
    → login_max_attempts ≤ suc (length guesses)
    → (login config last session csrf config.token ip
        (tried config ip ((clock, raw) ∷ guesses) attempts)).0
      ≡ (if leb (clock 1 + login_window_ms) (last 0)
          then accepted session csrf
          else refused rate_limited)
unfolding tried
login_locked config ip raw session csrf clock last guesses attempts on fresh wrong h many =
    let reset : ℕ = clock 1 + login_window_ms in
    let opened = put ip (some (record { count = 1; reset_at = reset })) attempts in
    let (n, full, known) =
      tried-counted config ip 1 reset guesses opened on (put-here ip _ attempts) h
        (omega (arith, many)) in
    rw (login-first config clock raw ip attempts on fresh wrong) (
      right_token config last session csrf ip (tried config ip guesses opened) n reset on known
        full)
