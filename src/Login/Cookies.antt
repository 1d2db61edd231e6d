-- ===== src/Login/Cookies.antt =====
-- core/src/auth/cookies.ts, and `verify`, `csrfMatches`, `loginCookies` and `clearCookies` of
-- core/src/auth/auth.service.ts. The object that `parseCookies` fills is a list, the last value first.
-- `number_text` is the platform's text of a number.
use Prim.Native.Char.{code, Char}
use Prim.Native.String as Text
use icos_v.Base.{
  ℕ, ◌/◌, String, Bool, true, false, not, ◌&&◌, Option, none, some, List, [], ◌∷◌, ◌++◌, ◌==◌,
  str_eq, if◌then◌else◌,
}
use icos_v.Base.Text.{trim}
use icos_v.Login.Session.{Codec, SessionPayload, verify_session}

pub data SameSite : Type 0 where
  strict lax none_given : SameSite

pub record CookieOptions : Type 0 where
  pub http_only : Bool
  pub same_site : SameSite
  pub secure : Bool
  pub path : String
  pub max_age : Option ℕ

abbrev same_site_text : SameSite → String
same_site_text strict = "SameSite=Strict"
same_site_text lax = "SameSite=Lax"
same_site_text none_given = "SameSite=None"

-- `.join('; ')`
unfoldable pub join : List String → String
join [] = ""
join (part ∷ []) = part
join (part ∷ other ∷ rest) = Text.◌++◌ part (Text.◌∷◌ ";" (Text.◌∷◌ " " (join (other ∷ rest))))

abbrev pub pair_text : String → String → String
pair_text name value = Text.◌++◌ name (Text.◌∷◌ "=" value)

abbrev age_parts : (ℕ → String) → Option ℕ → List String
age_parts number_text none = []
age_parts number_text (some age) = Text.◌++◌ "Max-Age=" (number_text (age / 1000)) ∷ []

abbrev flag : String → Bool → List String
flag text given = if given then text ∷ [] else []

unfoldable pub serialize_cookie : (ℕ → String) → (name value : String) → CookieOptions → String
unfolding join
serialize_cookie number_text name value options = join (
    pair_text name value ∷ Text.◌++◌ "Path=" options.path ∷ age_parts number_text options.max_age
    ++ same_site_text options.same_site ∷ flag "HttpOnly" options.http_only
    ++ flag "Secure" options.secure)

unfoldable pub expire_cookie : (name path : String) → String
expire_cookie name path =
    Text.◌++◌ name (Text.◌++◌ "=; Path=" (Text.◌++◌ path "; Max-Age=0; SameSite=Strict; HttpOnly"))

abbrev push : Char → List String → List String
push c [] = Text.◌∷◌ c "" ∷ []
push c (part ∷ parts) = Text.◌∷◌ c part ∷ parts

-- `.split(';')`
unfoldable pub split_pairs : String → List String
split_pairs Text.[] = "" ∷ []
split_pairs (Text.◌∷◌ c s) =
    let rest = split_pairs s in if code c == 59 then "" ∷ rest else push c rest

abbrev prefix_with : Char → Option (String × String) → Option (String × String)
prefix_with c none = none
prefix_with c (some (name, value)) = some (Text.◌∷◌ c name, value)

-- The texts before and after the first `=`.
unfoldable pub cut_pair : String → Option (String × String)
cut_pair Text.[] = none
cut_pair (Text.◌∷◌ c s) =
    let rest = cut_pair s in if code c == 61 then some ("", s) else prefix_with c rest

abbrev pub add_pair : Option (String × String) → List (String × String) → List (String × String)
add_pair none out = out
add_pair (some (name, value)) out =
    if str_eq (trim name) "" then out else (trim name, trim value) ∷ out

unfoldable pub parse_pairs : List String → List (String × String) → List (String × String)
unfolding cut_pair
parse_pairs [] out = out
parse_pairs (pair ∷ pairs) out = parse_pairs pairs (add_pair (cut_pair pair) out)

unfoldable pub parse_cookies : Option String → List (String × String)
unfolding split_pairs parse_pairs
parse_cookies none = []
parse_cookies (some header) =
    if str_eq (trim header) "" then [] else parse_pairs (split_pairs header) []

-- `cookies[name]`
unfoldable pub cookie : String → List (String × String) → Option String
cookie name [] = none
cookie name ((n, value) ∷ out) =
    let rest = cookie name out in if str_eq n name then some value else rest

abbrev pub session_cookie : String
session_cookie = "icos_session"

abbrev pub csrf_cookie : String
csrf_cookie = "icos_csrf"

module _ (codec : Codec) where
  unfoldable pub verify :
      (auth_enabled : Bool) → codec.Secret → Option String → ℕ → Option SessionPayload
  unfolding parse_cookies cookie
  verify auth_enabled secret header now =
      if auth_enabled
      then verify_session codec secret (cookie session_cookie (parse_cookies header)) now
      else none

abbrev same_text : Option String → Option String → Bool
same_text none sent = false
same_text (some header) none = false
same_text (some header) (some sent) =
    not (str_eq header "") && not (str_eq sent "") && str_eq header sent

unfoldable pub csrf_matches : (cookies header : Option String) → Bool
unfolding parse_cookies cookie
csrf_matches cookies header = same_text header (cookie csrf_cookie (parse_cookies cookies))

abbrev pub cookie_options : (secure : Bool) → (session_ttl_ms : ℕ) → CookieOptions
cookie_options secure session_ttl_ms = record {
  http_only = true;
  same_site = strict;
  secure = secure;
  path = "/";
  max_age = some session_ttl_ms;
}

unfoldable pub login_cookies :
    (ℕ → String) → (secure : Bool) → (session_ttl_ms : ℕ) → (session csrf : String) → List String
unfolding serialize_cookie
login_cookies number_text secure session_ttl_ms session csrf =
    let options = cookie_options secure session_ttl_ms in
    serialize_cookie number_text session_cookie session options
    ∷ serialize_cookie number_text csrf_cookie csrf (record options { http_only = false })
    ∷ []

unfoldable pub clear_cookies : List String
unfolding expire_cookie
clear_cookies = expire_cookie session_cookie "/" ∷ expire_cookie csrf_cookie "/" ∷ []
