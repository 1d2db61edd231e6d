-- ===== src/Login.antt =====
-- The login and its throttle in core/src/auth/auth.service.ts. The Map of attempts is a function from
-- the address to its entry; the bootstrap token, the signed session value and the random CSRF value
-- are arguments. The audit line of each login, written to a file, is left out.
pub mod Throttle
pub mod Session
pub mod Cookies
pub mod Values
pub mod Header
mod Tests
use icos_v.Base.{
  ℕ, suc, ◌+◌, ◌*◌, String, Bool, true, false, not, Option, none, some, List, [], ◌∷◌, str_eq, leb,
  if◌then◌else◌,
}
use icos_v.Base.Exec.{Clock}

abbrev pub login_max_attempts : ℕ
login_max_attempts = 10

abbrev pub login_window_ms : ℕ
login_window_ms = 15 * 60 * 1000

pub record Attempt : Type 0 where
  pub count : ℕ
  pub reset_at : ℕ

abbrev pub Attempts : Type 0
Attempts = String → Option Attempt

abbrev pub put : String → Option Attempt → Attempts → Attempts
put ip entry attempts other = if str_eq other ip then entry else attempts other

pub data Refusal : Type 0 where
  disabled invalid rate_limited : Refusal

-- The role is always `admin`.
pub data LoginResult : Type 0 where
  accepted : (session csrf : String) → LoginResult
  refused : Refusal → LoginResult

-- The configuration and the secrets that the service holds.
pub record Config : Type 0 where
  pub auth_enabled : Bool
  pub token : String

abbrev throttled_by : ℕ → String → Option Attempt → Attempts → Bool × Attempts
throttled_by now ip none attempts = (false, attempts)
throttled_by now ip (some attempt) attempts =
    if leb attempt.reset_at now
    then (false, put ip none attempts)
    else (leb login_max_attempts attempt.count, attempts)

abbrev pub throttled : ℕ → String → Attempts → Bool × Attempts
throttled now ip attempts = throttled_by now ip (attempts ip) attempts

abbrev noted : ℕ → Option Attempt → Attempt
noted now none = record { count = 1; reset_at = now + login_window_ms }
noted now (some attempt) =
    if leb attempt.reset_at now
    then record { count = 1; reset_at = now + login_window_ms }
    else record attempt { count = suc attempt.count }

abbrev pub note_failure : ℕ → String → Attempts → Attempts
note_failure now ip attempts = put ip (some (noted now (attempts ip))) attempts

abbrev log_in_unthrottled :
    Config → Clock → (session csrf raw ip : String) → Attempts → LoginResult × Attempts
log_in_unthrottled config clock session csrf raw ip attempts =
    if str_eq raw config.token
    then (accepted session csrf, put ip none attempts)
    else (refused invalid, note_failure (clock 1) ip attempts)

abbrev decide :
    Config → Clock → (session csrf raw ip : String) → Bool × Attempts → LoginResult × Attempts
decide config clock session csrf raw ip (true, attempts) = (refused rate_limited, attempts)
decide config clock session csrf raw ip (false, attempts) =
    log_in_unthrottled config clock session csrf raw ip attempts

unfoldable pub login :
    Config → Clock → (session csrf raw ip : String) → Attempts → LoginResult × Attempts
login config clock session csrf raw ip attempts =
    if config.auth_enabled
    then decide config clock session csrf raw ip (throttled (clock 0) ip attempts)
    else (refused disabled, attempts)
