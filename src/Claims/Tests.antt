-- ===== src/Claims/Tests.antt =====
-- The theorems on the claims at concrete triples.
use icos_v.Base.{String, true, false, List, [], ◌∷◌, some, ◌≡◌, ◌↔◌, refl}
use icos_v.Base.Exec.{ok}
use icos_v.Base.Table.{find}
use icos_v.Base.Rows.{find_where}
use icos_v.Claims.{
  candidate, active, preference, of_user, user, NewClaim, Db, get_claim, new_row, create_claim,
  find_by_triple,
}
use icos_v.Claims.Identity.{
  Triple, normalize_triple_field, identity_key, is_barless, identity_key_iff,
}
use icos_v.Claims.Growth.{Extends}
use icos_v.Claims.Runs.{Call, creates, sets_status, appends, run, run-Extends}
use icos_v.Claims.Outcomes.{create_claim-found}

abbrev as_is : String → String
as_is s = s

abbrev editor : Triple
editor = record { subject = "user"; predicate = "prefers"; object = "Vim" }

abbrev quoted : Triple
quoted = record { subject = "user "; predicate = "prefers"; object = "'Vim'" }

abbrev a_claim : NewClaim
a_claim = record {
  subject = "user";
  predicate = "prefers";
  object = "Vim";
  category = preference;
  status = candidate;
  extractor_confidence = 900000;
  confidence = 900000;
  first_asserted_at = "c1";
  last_surfaced_at = "c1";
  origin = of_user;
  negated = false;
  evidence = record { candidate_id = "c1"; role = user } ∷ [];
  entities = [];
  promotion = "auto";
}

abbrev nothing : Db
nothing = record { claims = []; memory_candidates = [] }

abbrev one : Db
one = record { claims = new_row as_is "k1" 5 a_claim ∷ []; memory_candidates = [] }

some_calls : List Call
some_calls =
    sets_status 6 "k1" active
    ∷ appends 7 "k1" (record { candidate_id = "c2"; role = user } ∷ []) 950000
    ∷ creates "k2" 8 a_claim
    ∷ []

barless_fields :
    (is_barless (normalize_triple_field as_is "user") ≡ true)
    × (is_barless (normalize_triple_field as_is "prefers") ≡ true)
    × (is_barless (normalize_triple_field as_is "user ") ≡ true)
unfolding is_barless normalize_triple_field
barless_fields = (refl, refl, refl)

identity_key_iff_example : (identity_key as_is editor ≡ identity_key as_is quoted) ↔ (
    (normalize_triple_field as_is "user" ≡ normalize_triple_field as_is "user ")
    × (normalize_triple_field as_is "prefers" ≡ normalize_triple_field as_is "prefers")
    × (normalize_triple_field as_is "Vim" ≡ normalize_triple_field as_is "'Vim'"))
identity_key_iff_example =
    let (on_user, on_prefers, on_user_space) = barless_fields in
    identity_key_iff as_is editor quoted on_user on_prefers on_user_space on_prefers

created_first :
    create_claim as_is "k1" 5 a_claim nothing ≡ (ok (new_row as_is "k1" 5 a_claim).claim, one)
unfolding create_claim find_where find
created_first = refl

create_claim-found_example :
    (find_by_triple as_is editor false one ≡ some (new_row as_is "k1" 5 a_claim).claim)
    × (get_claim "k1" one ≡ some (new_row as_is "k1" 5 a_claim).claim)
create_claim-found_example =
    create_claim-found as_is "k1" 5 a_claim nothing one (new_row as_is "k1" 5 a_claim).claim
      created_first

run-Extends_example : Extends one (run as_is some_calls one)
run-Extends_example = run-Extends as_is some_calls one
