-- ===== src/Share.antt =====
-- Sessions of a shared folder (chatx5/web/share_browser.py): who gets at one, and which files its
-- requests reach. The table `_share_sessions` is passed from call to call; the clock, the fresh ids and
-- the file system are arguments.
pub mod Handlers
pub mod Access
pub mod Containment
mod Tests
use chatx.Prelude.{
  ℕ, ◌+◌, Bool, true, false, not, ◌&&◌, Option, none, some, ◌==◌, ltb, if◌then◌else◌,
}
use chatx.Text.{Str, truthy, or_else, or_empty, strip, str_eq}
use chatx.Dict.{Dict, lookup, insert, erase_all, keys_with}

pub record Offer : Type 0 where
  pub session_id : Str
  pub token : Str
  pub root_name : Str
  pub host : Str
  pub port : ℕ
  pub scheme : Str
  pub writable : Bool
  pub owner : Str
  pub hub_group : Bool

pub record Session : Type 0 where
  pub offer : Offer
  pub open offer use *
  pub root : Str
  pub target : Str
  pub created : ℕ
  pub expires : ℕ

abbrev pub Sessions : Type 0
Sessions = Dict Session

abbrev pub share_session_ttl_s : ℕ
share_session_ttl_s = 7200

abbrev pub is_expired : ℕ → Str → Session → Bool
is_expired now sid sess = ltb sess.expires now

unfoldable pub prune_share_sessions : ℕ → Sessions → Sessions
prune_share_sessions now sessions = erase_all (keys_with (is_expired now) sessions) sessions

abbrev pub check_token : Str → Option Session → Option Session
check_token token none = none
check_token token (some sess) =
    if truthy token && not (sess.token == token) then none else some sess

-- `_share_session`: the session, and the table after the pruning.
unfoldable pub share_session : Str → Str → ℕ → Sessions → Option Session × Sessions
share_session session_id token now sessions =
    let kept = prune_share_sessions now sessions in
    (check_token token (lookup (strip session_id) kept), kept)

-- The header `X-Share-Token` and the parameter `token` of a request.
unfoldable pub share_token_from_request : Option Str → Option Str → Str
share_token_from_request header query = strip (or_else (or_empty header) (or_empty query))

-- The session that `handle_share_start` stores.
unfoldable pub start_session : Offer → Str → Str → ℕ → Sessions → Sessions
start_session offer root target now sessions =
    insert offer.session_id
      (record {
        offer = offer;
        root = root;
        target = target;
        created = now;
        expires = now + share_session_ttl_s;
      })
      sessions
