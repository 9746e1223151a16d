-- ===== src/Share/Handlers.antt =====
-- The requests that a peer makes on a shared folder.
use chatx.Prelude.{ℕ, Bool, not, List, [], ◌∷◌, Option, none, some, if◌then◌else◌}
use chatx.Text.{Str, codes, truthy, or_else, or_empty}
use chatx.Paths.{safe_basename, safe_rel_path_under}
use chatx.Share.{Session, Sessions, prune_share_sessions, share_session, share_token_from_request}

-- A request for a session: its id and where it may carry a token.
pub record Request : Type 0 where
  pub session_id : Str
  pub header : Option Str
  pub query : Option Str

abbrev pub token_of : Request → Str
token_of r = share_token_from_request r.header r.query

abbrev pub session_of : Request → ℕ → Sessions → Option Session
session_of r now sessions = (share_session r.session_id (token_of r) now sessions).0

pub data Reply : Type 0 where
  fail : (status : ℕ) → Reply
  file : Str → Reply
  stored : Str → Str → Reply

-- The resolved path, where Python treats the empty text as no path.
abbrev pub resolved : Option Str → Option Str
resolved none = none
resolved (some p) = if truthy p then some p else none

abbrev download_path : (Str → Bool) → Option Str → Reply
download_path isfile none = fail 404
download_path isfile (some full) = if not (isfile full) then fail 404 else file full

unfoldable pub serve_download : (Str → Bool) → Str → Option Session → Reply
serve_download isfile rel none = fail 404
serve_download isfile rel (some sess) =
    download_path isfile (resolved (safe_rel_path_under sess.root rel []))

-- The reply, and the table after the pruning.
unfoldable pub handle_share_download :
    (Str → Bool) → Str → Request → ℕ → Sessions → Reply × Sessions
unfolding serve_download
handle_share_download isfile rel r now sessions =
    (serve_download isfile rel (session_of r now sessions), prune_share_sessions now sessions)

-- The parts of a multipart body, as the upload reads them.
pub data Field : Type 0 where
  path : Str → Field
  upload : (filename : Option Str) (content : Str) → Field
  other : Field

abbrev pub upload_name : Option Str → Str
upload_name filename =
    safe_basename (or_else (or_empty filename) (codes "upload.bin")) (codes "file")

abbrev store : Str → Option Str → Reply
store content none = fail 400
store content (some dest) = stored dest content

abbrev store_under : Str → Str → Option Str → Reply
store_under filename content none = fail 400
store_under filename content (some dest_dir) =
    store content (resolved (safe_rel_path_under dest_dir filename filename))

-- The loop over the fields: the last path before the first file counts.
unfoldable pub upload_fields : Str → Str → List Field → Reply
upload_fields root rel [] = fail 400
upload_fields root rel (path p ∷ fields) = upload_fields root p fields
upload_fields root rel (upload filename content ∷ fields) =
    store_under (upload_name filename) content (resolved (safe_rel_path_under root rel []))
upload_fields root rel (other ∷ fields) = upload_fields root rel fields

unfoldable pub serve_upload : List Field → Option Session → Reply
serve_upload fields none = fail 404
serve_upload fields (some sess) =
    if not sess.writable then fail 403 else upload_fields sess.root [] fields

unfoldable pub handle_share_upload : List Field → Request → ℕ → Sessions → Reply × Sessions
unfolding serve_upload upload_fields
handle_share_upload fields r now sessions =
    (serve_upload fields (session_of r now sessions), prune_share_sessions now sessions)
