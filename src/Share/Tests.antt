-- ===== src/Share/Tests.antt =====
-- Runs of the share handlers, and the theorems at a concrete session.
use chatx.Prelude.{◌≡◌, refl, ◌↔◌, ◌⊎◌, true, false, none, some, List, [], ◌∷◌, arith, nat_eq}
use chatx.Text.{codes, str_beq, strip}
use chatx.Dict.{lookup, IsDict, insert, erase_all, keys_with}
use chatx.Paths.Plain.{IsPlain, absolute}
use chatx.Share.{
  Offer, Session, Sessions, share_session, start_session, share_token_from_request,
  prune_share_sessions,
}
use chatx.Share.Handlers.{
  Request, session_of, fail, Field, path, upload, other, handle_share_download, handle_share_upload,
  token_of,
}
use chatx.Share.Access.{Live, share_session_iff, missing_token_accepted}
use chatx.Share.Containment.{Inside, share_requests-Inside}
use chatx.Text.Parts.{join}

abbrev offer : Offer
offer = record {
  session_id = codes "s1";
  token = codes "secret";
  root_name = codes "srv";
  host = codes "10.0.0.2";
  port = 8742;
  scheme = codes "http";
  writable = true;
  owner = codes "abcd";
  hub_group = false;
}

abbrev sess : Session
sess = record {
  offer = offer;
  root = codes "/srv";
  target = codes "ef01";
  created = 100;
  expires = 7300;
}

abbrev sessions : Sessions
sessions = (codes "s1", sess) ∷ []

started : start_session offer (codes "/srv") (codes "ef01") 100 [] ≡ sessions
unfolding start_session insert
started = refl

abbrev with_token : Request
with_token = record { session_id = codes "s1"; header = none; query = some (codes " secret ") }

abbrev without_token : Request
without_token = record { session_id = codes "s1"; header = none; query = none }

abbrev wrong_token : Request
wrong_token = record {
  session_id = codes "s1";
  header = some (codes "guess");
  query = some (codes "secret");
}

found : session_of with_token 200 sessions ≡ some sess
unfolding share_session lookup prune_share_sessions erase_all keys_with str_beq strip
    share_token_from_request
found = refl

wrong_token_refused : session_of wrong_token 200 sessions ≡ none
unfolding share_session lookup prune_share_sessions erase_all keys_with str_beq strip
    share_token_from_request
wrong_token_refused = refl

expired_refused : session_of with_token 7301 sessions ≡ none
unfolding share_session lookup prune_share_sessions erase_all keys_with str_beq
expired_refused = refl

no_file_uploaded :
    handle_share_upload (path (codes "x") ∷ other ∷ []) with_token 200 sessions
    ≡ (fail 400, sessions)
unfolding handle_share_upload share_session lookup prune_share_sessions erase_all keys_with str_beq
    strip share_token_from_request
no_file_uploaded = refl

sessions-IsDict : IsDict sessions
unfolding lookup
sessions-IsDict = (refl, tt)

live : Live 200 sessions (codes "s1") sess
unfolding lookup str_beq strip
live = (refl, omega arith)

srv-IsPlain : IsPlain (codes "srv")
srv-IsPlain = ground arith

root_plain : sess.root ≡ absolute (codes "srv" ∷ [])
unfolding join
root_plain = refl

nothing : token_of without_token ≡ []
unfolding share_token_from_request strip
nothing = refl

right : token_of with_token ≡ sess.token
unfolding share_token_from_request strip
right = refl

abbrev fields : List Field
fields = path (codes "a/../b") ∷ upload (some (codes "..\\..\\x.txt")) (codes "hello") ∷ []

share_session_iff_example :
    ((share_session (codes "s1") (codes "secret") 200 sessions).0 ≡ some sess) ↔ (
      Live 200 sessions (codes "s1") sess × ((codes "secret" ≡ []) ⊎ (sess.token ≡ codes "secret")))
share_session_iff_example =
    share_session_iff (codes "s1") (codes "secret") 200 sessions sess sessions-IsDict

missing_token_accepted_example :
    (handle_share_download (λ p. true) (codes "a") without_token 200 sessions
      ≡ handle_share_download (λ p. true) (codes "a") with_token 200 sessions)
    × (handle_share_upload fields without_token 200 sessions
        ≡ handle_share_upload fields with_token 200 sessions)
missing_token_accepted_example =
    missing_token_accepted without_token with_token 200 sessions sess (λ p. true) (codes "a") fields
      sessions-IsDict live nothing refl right

share_requests-Inside_example :
    Inside
      (codes "srv" ∷ [])
      (handle_share_download (λ p. true) (codes "../x") with_token 200 sessions).0
    × Inside (codes "srv" ∷ []) (handle_share_upload fields with_token 200 sessions).0
share_requests-Inside_example =
    share_requests-Inside (codes "srv") [] (λ p. true) (codes "../x") fields with_token 200 sessions
      sess srv-IsPlain tt found root_plain
