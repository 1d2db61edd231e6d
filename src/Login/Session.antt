-- ===== src/Login/Session.antt =====
-- core/src/auth/session.ts: signed session tokens. The HMAC and the two directions of the platform's JSON
-- and base64url are parameters. Times are milliseconds.
use icos_v.Base.{
  ℕ, ◌+◌, String, false, Option, none, some, ◌==◌, leb, str_eq, if◌then◌else◌, ◌≡◌, refl, ◌∙◌, sym,
  ap, subst, inl, inr, arith, eq_iff, eq_refl, Bool-cases,
}
use Prim.Native.Char.{Char, code}
use Prim.Native.String as Text
use text.Mathlib.TextEquality.{Char-path}
use text.Mathlib.TextLemmas.{cons-append, nil-append}

pub data AuthRole : Type 0 where
  admin user : AuthRole

pub record SessionPayload : Type 0 where
  pub sub : String
  pub role : AuthRole
  pub iat : ℕ
  pub exp : ℕ

-- What `JSON.parse` makes of a decoded text: of an object, the fields that have the type that is asked for.
pub data Parsed : Type 0 where
  unparsable not_an_object : Parsed
  object : (exp : Option ℕ) → (role : Option AuthRole) → (sub : Option String) → (iat : ℕ) → Parsed

pub record Codec : Type 1 where
  pub Secret : Type 0
  pub sign : Secret → String → String
  pub encode : SessionPayload → String
  pub decode : String → Parsed

-- What stands before and after the last '.'
abbrev around : Char → String → Option (String × String) → Option (String × String)
around c s (some (before, rest)) = some (Text.◌∷◌ c before, rest)
around c s none = if code c == 46 then some ("", s) else none

unfoldable pub last_dot : String → Option (String × String)
last_dot Text.[] = none
last_dot (Text.◌∷◌ c s) = around c s (last_dot s)

abbrev pub accept : ℕ → Parsed → Option SessionPayload
accept now (object (some exp) (some role) (some sub) iat) =
    if leb exp now then none else some (record { sub = sub; role = role; iat = iat; exp = exp })
accept now _ = none

module _ (codec : Codec) where
  abbrev pub payload_of : AuthRole → (ttl now : ℕ) → SessionPayload
  payload_of role ttl now = record { sub = "admin"; role = role; iat = now; exp = now + ttl }

  abbrev pub signed : codec.Secret → String → String
  signed secret content = Text.◌++◌ content (Text.◌∷◌ "." (codec.sign secret content))

  unfoldable pub create_session : codec.Secret → AuthRole → (ttl now : ℕ) → String × SessionPayload
  create_session secret role ttl now =
      let payload = payload_of role ttl now in (signed secret (codec.encode payload), payload)

  abbrev pub verify_parts : codec.Secret → ℕ → Option (String × String) → Option SessionPayload
  verify_parts secret now none = none
  verify_parts secret now (some (content, provided)) =
      if str_eq content ""
      then none
      else if str_eq provided (codec.sign secret content)
      then accept now (codec.decode content)
      else none

  unfoldable pub verify_session : codec.Secret → Option String → ℕ → Option SessionPayload
  verify_session secret none now = none
  verify_session secret (some token) now = verify_parts secret now (last_dot token)

none_is_some : {A : Type 0} {a : A} → ¬ (Path (Option A) none (some a))
none_is_some p = cc

-- What is accepted has not expired.
accept-in_time :
    (now : ℕ) (parsed : Parsed) (payload : SessionPayload)
    → accept now parsed ≡ some payload
    → leb payload.exp now ≡ false
accept-in_time now unparsable payload h = absurd (none_is_some h)
accept-in_time now not_an_object payload h = absurd (none_is_some h)
accept-in_time now (object none role sub iat) payload h = absurd (none_is_some h)
accept-in_time now (object (some exp) none sub iat) payload h = absurd (none_is_some h)
accept-in_time now (object (some exp) (some role) none iat) payload h = absurd (none_is_some h)
accept-in_time now (object (some exp) (some role) (some sub) iat) payload h =
    elim (Bool-cases (leb exp now)) [
      | inl late ↦ absurd (none_is_some (rw late at h))
      | inr in_time ↦
          let accepted = rw in_time at h in
          let same : record { sub = sub; role = role; iat = iat; exp = exp } ≡ payload = cc in
          subst (λ q. leb q.exp now ≡ false) same in_time
    ]

last_dot-append :
    (a b : String) → last_dot b ≡ none → last_dot (Text.◌++◌ a (Text.◌∷◌ "." b)) ≡ some (a, b)
unfolding last_dot
last_dot-append Text.[] b h = rw (nil-append (Text.◌∷◌ "." b), h) refl
last_dot-append (Text.◌∷◌ c a) b h =
    rw (cons-append c a (Text.◌∷◌ "." b)) (ap (around c _) (last_dot-append a b h))

-- A token parts into what stands around its last '.'
last_dot-whole : (t a b : String) → last_dot t ≡ some (a, b) → t ≡ Text.◌++◌ a (Text.◌∷◌ "." b)
unfolding last_dot
last_dot-whole Text.[] a b h = cc
last_dot-whole (Text.◌∷◌ c s) a b h = go (last_dot s) refl h (last_dot-whole s)
  where
    go :
        (o : Option (String × String))
        → last_dot s ≡ o
        → around c s o ≡ some (a, b)
        → ((x y : String) → last_dot s ≡ some (x, y) → s ≡ Text.◌++◌ x (Text.◌∷◌ "." y))
        → Text.◌∷◌ c s ≡ Text.◌++◌ a (Text.◌∷◌ "." b)
    go none missing h whole = elim (Bool-cases (code c == 46)) [
      | inl dot ↦
          let ends = rw dot at h in
          let same_a : Path String "" a = cc in
          let same_b : s ≡ b = cc in
          ap (λ d. Text.◌∷◌ d s) (Char-path c "." (ground (arith, dot)))
          ∙ sym (nil-append (Text.◌∷◌ "." s))
          ∙ ap (λ x. Text.◌++◌ x (Text.◌∷◌ "." s)) same_a
          ∙ ap (λ x. Text.◌++◌ a (Text.◌∷◌ "." x)) same_b
      | inr other ↦ absurd (none_is_some (rw other at h))
    ]
    go (some (before, rest)) found h whole =
        let same_a : Text.◌∷◌ c before ≡ a = cc in
        let same_b : rest ≡ b = cc in
        ap (Text.◌∷◌ c) (whole before rest found)
        ∙ sym (cons-append c before (Text.◌∷◌ "." rest))
        ∙ ap (λ x. Text.◌++◌ x (Text.◌∷◌ "." rest)) same_a
        ∙ ap (λ x. Text.◌++◌ a (Text.◌∷◌ "." x)) same_b

module _ (codec : Codec) where
  -- A session that is created verifies to its payload as long as its time to live has not passed, and to
  -- nothing from then on, where the platform decodes what it encoded to those fields, the encoded payload is
  -- not empty, and the signature has no '.'.
  pub verify_session-create_session :
      (secret : codec.Secret) (role : AuthRole) (ttl now later : ℕ)
      → (let p = payload_of codec role ttl now in
          codec.decode (codec.encode p) ≡ object (some p.exp) (some p.role) (some p.sub) p.iat)
      → str_eq (codec.encode (payload_of codec role ttl now)) "" ≡ false
      → last_dot (codec.sign secret (codec.encode (payload_of codec role ttl now))) ≡ none
      → verify_session codec secret (some (create_session codec secret role ttl now).0) later ≡ (
          if leb (now + ttl) later then none else some (create_session codec secret role ttl now).1)
  unfolding verify_session create_session
  verify_session-create_session secret role ttl now later decoded filled plain =
      rw
        (
          last_dot-append (codec.encode (payload_of codec role ttl now))
              (codec.sign secret (codec.encode (payload_of codec role ttl now))) plain,
          filled,
          eq_refl (codec.sign secret (codec.encode (payload_of codec role ttl now))),
          decoded,
        )
        refl

  -- A token that verifies is a text with its signature under the secret, and the time to live of what that
  -- text decodes to has not passed.
  pub verify_session-signed :
      (secret : codec.Secret) (token : String) (now : ℕ) (payload : SessionPayload)
      → verify_session codec secret (some token) now ≡ some payload
      → (content : String) × (token ≡ signed codec secret content)
        × (accept now (codec.decode content) ≡ some payload)
        × (leb payload.exp now ≡ false)
  unfolding verify_session
  verify_session-signed secret token now payload h = go (last_dot token) refl h
    where
      go :
          (o : Option (String × String))
          → last_dot token ≡ o
          → verify_parts codec secret now o ≡ some payload
          → (content : String) × (token ≡ signed codec secret content)
            × (accept now (codec.decode content) ≡ some payload)
            × (leb payload.exp now ≡ false)
      go none missing h = absurd (none_is_some h)
      go (some (content, provided)) found h = elim (Bool-cases (str_eq content "")) [
        | inl empty ↦ absurd (none_is_some (rw empty at h))
        | inr filled ↦ elim (Bool-cases (str_eq provided (codec.sign secret content))) [
          | inl genuine ↦
              let accepted = rw (filled, genuine) at h in
              (
                content,
                last_dot-whole token content provided found
                    ∙ ap (λ x. Text.◌++◌ content (Text.◌∷◌ "." x))
                        ((eq_iff provided (codec.sign secret content)).0 genuine),
                accepted,
                accept-in_time now (codec.decode content) payload accepted,
              )
          | inr forged ↦ absurd (none_is_some (rw (filled, forged) at h))
        ]
      ]
