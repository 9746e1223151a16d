-- ===== src/Share/Access.antt =====
-- Who is given a session.
use chatx.Prelude.{
  ℕ, ◌≤◌, ◌≡◌, ◌↔◌, ◌⊎◌, Bool, some, [], arith, List, inl, inr, sym, ap, ◌∙◌, Option-cases,
}
use chatx.Text.{Str, strip, str_beq_iff}
use chatx.Dict.{lookup, IsDict}
use chatx.Dict.Laws.{lookup-erase_with}
use chatx.Share.{Session, Sessions, is_expired, prune_share_sessions, share_session}
use chatx.Share.Handlers.{
  Request, token_of, session_of, Field, serve_download, serve_upload, handle_share_download,
  handle_share_upload,
}

-- The session is in the table and has not expired.
abbrev pub Live : ℕ → Sessions → Str → Session → Type 0
Live now sessions id sess = (lookup (strip id) sessions ≡ some sess) × (now ≤ sess.expires)

-- A session is given exactly to a request that names a live one, and whose token is its token or empty.
pub share_session_iff :
    (id token : Str) (now : ℕ) (sessions : Sessions) (sess : Session)
    → IsDict sessions
    → ((share_session id token now sessions).0 ≡ some sess)
      ↔ (Live now sessions id sess × ((token ≡ []) ⊎ (sess.token ≡ token)))
unfolding share_session prune_share_sessions
share_session_iff id token now sessions sess d =
    let kept = lookup-erase_with (is_expired now) (strip id) sessions d in
    elim (Option-cases (lookup (strip id) sessions)) [
      | inl e ↦ rw (kept, share_session) (rw e (ground arith))
      | inr (x, e) ↦ rw (kept, share_session) (rw e (ground (arith, str_beq_iff x.token token)))
    ]

session_of_live :
    (r : Request) (now : ℕ) (sessions : Sessions) (sess : Session)
    → IsDict sessions
    → Live now sessions r.session_id sess
    → (token_of r ≡ []) ⊎ (sess.token ≡ token_of r)
    → session_of r now sessions ≡ some sess
session_of_live r now sessions sess d live t =
    (share_session_iff r.session_id (token_of r) now sessions sess d).1 (live, t)

-- A request without a token is served like one with the right token: the test of the token is skipped
-- when there is none.
pub missing_token_accepted :
    (r s : Request) (now : ℕ) (sessions : Sessions) (sess : Session) (isfile : Str → Bool)
    (rel : Str) (fields : List Field)
    → IsDict sessions
    → Live now sessions r.session_id sess
    → token_of r ≡ []
    → s.session_id ≡ r.session_id
    → token_of s ≡ sess.token
    → (handle_share_download isfile rel r now sessions
        ≡ handle_share_download isfile rel s now sessions)
      × (handle_share_upload fields r now sessions ≡ handle_share_upload fields s now sessions)
unfolding handle_share_download handle_share_upload
missing_token_accepted r s now sessions sess isfile rel fields d live nothing same right =
    let a = session_of_live r now sessions sess d live (inl nothing) in
    let b = session_of_live s now sessions sess d (rw same live) (inr (sym right)) in
    let e = a ∙ sym b in
    (
      ap (λ o. (serve_download isfile rel o, prune_share_sessions now sessions)) e,
      ap (λ o. (serve_upload fields o, prune_share_sessions now sessions)) e,
    )
