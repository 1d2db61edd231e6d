-- ===== src/Login/Header.antt =====
-- The `Cookie` header that a browser sends back, as core/src/auth/cookies.ts reads it.
use Prim.Native.String as Text
use text.Mathlib.TextLemmas.{append_assoc as append_assoc_text}
use icos_v.Base.{
  ℕ, String, Bool, map, true, false, some, List, [], ◌∷◌, ◌++◌, str_eq, ◌≡◌, refl, sym, ap, ◌∙◌,
  eq_refl, All,
}
use mathlib.Core.List.{append_assoc}
use icos_v.Base.Rows.{reverse}
use icos_v.Base.Text.{trim}
use icos_v.Login.Session.{Codec, verify_session}
use icos_v.Login.Cookies.{
  join, pair_text, split_pairs, cut_pair, add_pair, parse_pairs, parse_cookies, cookie,
  session_cookie, csrf_cookie, verify, csrf_matches, serialize_cookie, CookieOptions,
  cookie_options, login_cookies,
}
use icos_v.Login.Values.{
  cut_pair-name, is_name, is_name-parts, is_value, is_value-pair, pair_text-not_blank,
  split_pairs-last, split_pairs-value, trim-space, trim-value,
}

abbrev pub IsPair : String × String → Type 0
IsPair (name, value) = (is_name name ≡ true) × (is_value value ≡ true)

-- A pair that stands first, and one that stands after a space.
add_pair-first :
    (p : String × String) (out : List (String × String))
    → IsPair p
    → add_pair (cut_pair (pair_text p.0 p.1)) out ≡ p ∷ out
add_pair-first (name, value) out (n, v) =
    let (plain, no_equals, given) = is_name-parts name n in
    rw (cut_pair-name name value no_equals, trim-value name plain, given, trim-value value v) refl

cut_pair-space :
    (s name value : String)
    → cut_pair s ≡ some (name, value)
    → cut_pair (Text.◌∷◌ " " s) ≡ some (Text.◌∷◌ " " name, value)
unfolding cut_pair
cut_pair-space s name value h = rw h refl

add_pair-next :
    (p : String × String) (out : List (String × String))
    → IsPair p
    → add_pair (cut_pair (Text.◌∷◌ " " (pair_text p.0 p.1))) out ≡ p ∷ out
add_pair-next (name, value) out (n, v) =
    let (plain, no_equals, given) = is_name-parts name n in
    rw
      (
        cut_pair-space (pair_text name value) name value (cut_pair-name name value no_equals),
        trim-space name plain,
        given,
        trim-value value v,
      )
      refl

abbrev first_part : List String → String
first_part [] = ""
first_part (part ∷ parts) = part

abbrev texts : List (String × String) → List String
texts [] = []
texts ((name, value) ∷ ps) = pair_text name value ∷ texts ps

-- `name=value`, joined by a semicolon and a space
unfoldable cookie_header : List (String × String) → String
unfolding join
cookie_header ps = join (texts ps)

is_value-text : (p : String × String) → IsPair p → is_value (pair_text p.0 p.1) ≡ true
is_value-text (name, value) (n, v) = is_value-pair name value ((is_name-parts name n).0) v

parse_pairs-next :
    (p : String × String) (ps out : List (String × String))
    → All IsPair (p ∷ ps)
    → parse_pairs (split_pairs (Text.◌∷◌ " " (cookie_header (p ∷ ps)))) out
      ≡ reverse (p ∷ ps) ++ out
unfolding cookie_header parse_pairs split_pairs reverse
parse_pairs-next p [] out (h, _) =
    rw (split_pairs-last (pair_text p.0 p.1) (is_value-text p h)) (add_pair-next p out h)
parse_pairs-next p (q ∷ ps) out (h, hs) =
    rw
      (split_pairs-value (pair_text p.0 p.1) (Text.◌∷◌ " " (join (texts (q ∷ ps))))
        (is_value-text p h))
      (ap (parse_pairs (split_pairs (Text.◌∷◌ " " (join (texts (q ∷ ps)))))) (add_pair-next p out h)
        ∙ parse_pairs-next q ps (p ∷ out) hs
        ∙ sym (append_assoc (reverse (q ∷ ps)) (p ∷ []) out))

parse_pairs-first :
    (p : String × String) (ps : List (String × String))
    → All IsPair (p ∷ ps)
    → parse_pairs (split_pairs (cookie_header (p ∷ ps))) [] ≡ reverse (p ∷ ps)
unfolding cookie_header parse_pairs reverse
parse_pairs-first p [] (h, _) =
    rw (split_pairs-last (pair_text p.0 p.1) (is_value-text p h)) (add_pair-first p [] h)
parse_pairs-first p (q ∷ ps) (h, hs) =
    rw
      (split_pairs-value (pair_text p.0 p.1) (Text.◌∷◌ " " (join (texts (q ∷ ps))))
        (is_value-text p h))
      (ap (parse_pairs (split_pairs (Text.◌∷◌ " " (join (texts (q ∷ ps)))))) (add_pair-first p [] h)
        ∙ parse_pairs-next q ps (p ∷ []) hs)

header-not_blank :
    (p : String × String) (ps : List (String × String))
    → IsPair p
    → str_eq (trim (cookie_header (p ∷ ps))) "" ≡ false
unfolding cookie_header join
header-not_blank (name, value) [] (n, v) = pair_text-not_blank name (Text.◌∷◌ "=" value) n
header-not_blank (name, value) (q ∷ ps) (n, v) =
    rw (append_assoc_text name (Text.◌∷◌ "=" value) _) (pair_text-not_blank name _ n)

session_name : is_name session_cookie ≡ true
unfolding is_name
session_name = refl

csrf_name : is_name csrf_cookie ≡ true
unfolding is_name
csrf_name = refl

-- The cookies that a browser sends in one header are read back, the last one first, where no name or
-- value has white space or a semicolon, and no name has a `=` or is empty.
parse_cookies-cookie_header :
    (p : String × String) (ps : List (String × String))
    → All IsPair (p ∷ ps)
    → parse_cookies (some (cookie_header (p ∷ ps))) ≡ reverse (p ∷ ps)
unfolding parse_cookies
parse_cookies-cookie_header p ps (h, hs) =
    rw (header-not_blank p ps h) (parse_pairs-first p ps (h, hs))

-- What stands before the first semicolon of the text of a `Set-Cookie` header.
abbrev pub cookie_pair : String → String
cookie_pair text = first_part (split_pairs text)

-- What a browser sends back of cookies that have not expired, for a path that they cover (RFC 6265): their
-- pairs, joined by a semicolon and a space.
abbrev pub SendsPairs : (List String → String) → List String → Type 0
SendsPairs browser set_cookies = browser set_cookies ≡ join (map cookie_pair set_cookies)

cookie_pair-serialize_cookie :
    (number_text : ℕ → String) (name value : String) (options : CookieOptions)
    → IsPair (name, value)
    → cookie_pair (serialize_cookie number_text name value options) ≡ pair_text name value
unfolding serialize_cookie join
cookie_pair-serialize_cookie number_text name value options pair =
    ap first_part (split_pairs-value (pair_text name value) _ (is_value-text (name, value) pair))

-- The header that comes back for the cookies of a login.
sent_back :
    (browser : List String → String) (number_text : ℕ → String) (secure : Bool) (ttl : ℕ)
    (session csrf : String)
    → SendsPairs browser (login_cookies number_text secure ttl session csrf)
    → is_value session ≡ true
    → is_value csrf ≡ true
    → browser (login_cookies number_text secure ttl session csrf)
      ≡ cookie_header ((session_cookie, session) ∷ (csrf_cookie, csrf) ∷ [])
unfolding login_cookies cookie_header
sent_back browser number_text secure ttl session csrf sends s c =
    sends
    ∙ rw
        (
          cookie_pair-serialize_cookie number_text session_cookie session
              (cookie_options secure ttl) (session_name, s),
          cookie_pair-serialize_cookie number_text csrf_cookie csrf
              (record (cookie_options secure ttl) { http_only = false }) (csrf_name, c),
        )
        refl

-- The cookies that `loginCookies` makes of a session and a CSRF value are what the next requests are
-- checked against: the header that the browser sends back for them verifies exactly as the session itself
-- does, and its CSRF cookie matches the value sent beside it. The session and the CSRF value have no white
-- space and no semicolon, the CSRF value is not empty, and the browser sends back the pairs of the cookies.
pub verify-login_cookies :
    (codec : Codec) (secret : codec.Secret) (browser : List String → String)
    (number_text : ℕ → String) (secure : Bool) (ttl : ℕ) (session csrf : String) (now : ℕ)
    → SendsPairs browser (login_cookies number_text secure ttl session csrf)
    → is_value session ≡ true
    → is_value csrf ≡ true
    → str_eq csrf "" ≡ false
    → (verify codec true secret
          (some (browser (login_cookies number_text secure ttl session csrf)))
          now
        ≡ verify_session codec secret (some session) now)
      × (csrf_matches
            (some (browser (login_cookies number_text secure ttl session csrf)))
            (some csrf)
          ≡ true)
unfolding verify csrf_matches cookie reverse
verify-login_cookies codec secret browser number_text secure ttl session csrf now sends s c given =
    let header = sent_back browser number_text secure ttl session csrf sends s c in
    let read =
      parse_cookies-cookie_header (session_cookie, session) ((csrf_cookie, csrf) ∷ [])
        ((session_name, s), ((csrf_name, c), tt)) in
    (rw (header, read) refl, rw (header, read, given, eq_refl csrf) refl)
