-- ===== src/Share/Containment.antt =====
-- Which files the requests on a shared folder reach.
use chatx.Prelude.{
  ℕ, ◌≡◌, refl, ap, Bool, true, inl, inr, List, [], ◌∷◌, ◌++◌, arith, Option, some, All, All-append,
  append_assoc, Bool-cases,
}
use chatx.Text.{Str, codes}
use chatx.Text.Parts.{join}
use chatx.Paths.{clean_parts}
use chatx.Paths.Plain.{IsPlain, absolute}
use chatx.Paths.Safety.{clean_parts-IsPlain, safe_rel_path_under_lem}
use chatx.Paths.Names.{IsName, safe_basename-IsName, safe_rel_path_under_name}
use chatx.Share.{Session, Sessions}
use chatx.Share.Handlers.{
  Request, session_of, Reply, fail, file, stored, Field, path, upload, other, upload_name,
  upload_fields, serve_download, serve_upload, handle_share_download, handle_share_upload,
}

-- A file that lies in the directory, at any depth: its path goes on by plain names.
abbrev pub Under : List Str → Str → Type 0
Under base full = (qs : List Str) × (full ≡ absolute (base ++ qs)) × All IsPlain qs

abbrev pub Inside : List Str → Reply → Type 0
Inside base (fail status) = Unit
Inside base (file full) = Under base full
Inside base (stored dest content) = Under base dest

file-IsName : IsName (codes "file")
file-IsName = ground arith

pub upload_name-IsName : (filename : Option Str) → IsName (upload_name filename)
upload_name-IsName filename = safe_basename-IsName _ (codes "file") file-IsName

module _ (p : Str) (ps : List Str) (h : IsPlain p) (k : All IsPlain ps) where
  serve_download-Inside :
      (isfile : Str → Bool) (rel : Str) (sess : Session)
      → sess.root ≡ absolute (p ∷ ps)
      → Inside (p ∷ ps) (serve_download isfile rel (some sess))
  unfolding serve_download join
  serve_download-Inside isfile rel sess e =
      let full = absolute (p ∷ ps ++ clean_parts rel []) in
      rw (e, serve_download)
        (rw (safe_rel_path_under_lem p ps rel h k) (elim (Bool-cases (isfile full)) [
          | inl there ↦ rw there (clean_parts rel [], refl, clean_parts-IsPlain rel [])
          | inr gone ↦ rw gone tt
        ]))

  -- One upload is stored under its name in the directory that the path leads to.
  upload_stored :
      (rel : Str) (filename : Option Str) (content : Str) (fields : List Field)
      → upload_fields (absolute (p ∷ ps)) rel (upload filename content ∷ fields)
        ≡ stored (absolute (p ∷ ps ++ (clean_parts rel [] ++ (upload_name filename ∷ [])))) content
  unfolding upload_fields join
  upload_stored rel filename content fields =
      let qs = clean_parts rel [] in
      let under = All-append IsPlain ps qs k (clean_parts-IsPlain rel []) in
      rw (safe_rel_path_under_lem p ps rel h k) (
        rw
          (safe_rel_path_under_name p (ps ++ qs) (upload_name filename) h under
            (upload_name-IsName filename))
          (ap (λ r. stored (absolute (p ∷ r)) content) (append_assoc ps qs _)))

  upload_fields-Inside :
      (rel : Str) (fields : List Field)
      → Inside (p ∷ ps) (upload_fields (absolute (p ∷ ps)) rel fields)
  unfolding upload_fields
  upload_fields-Inside rel [] = tt
  upload_fields-Inside rel (path q ∷ fields) = upload_fields-Inside q fields
  upload_fields-Inside rel (upload filename content ∷ fields) =
      let name = upload_name filename in
      rw (upload_stored rel filename content fields) (
        clean_parts rel [] ++ (name ∷ []),
        refl,
        All-append IsPlain (clean_parts rel []) (name ∷ []) (clean_parts-IsPlain rel [])
            ((upload_name-IsName filename).0, tt),
      )
  upload_fields-Inside rel (other ∷ fields) = upload_fields-Inside rel fields

-- Where the shared folder is an absolute path of names, a download sends and an upload writes no file
-- but one under that folder, whatever path, names and fields the peer sends.
pub share_requests-Inside :
    (p : Str) (ps : List Str) (isfile : Str → Bool) (rel : Str) (fields : List Field) (r : Request)
    (now : ℕ) (sessions : Sessions) (sess : Session)
    → IsPlain p
    → All IsPlain ps
    → session_of r now sessions ≡ some sess
    → sess.root ≡ absolute (p ∷ ps)
    → Inside (p ∷ ps) (handle_share_download isfile rel r now sessions).0
      × Inside (p ∷ ps) (handle_share_upload fields r now sessions).0
unfolding handle_share_download handle_share_upload serve_upload
share_requests-Inside p ps isfile rel fields r now sessions sess h k found root =
    rw (found, handle_share_download, handle_share_upload)
      (
        serve_download-Inside p ps h k isfile rel sess root,
        elim (Bool-cases sess.writable) [
          | inl open_to_write ↦
              rw (open_to_write, serve_upload) (rw root (upload_fields-Inside p ps h k [] fields))
          | inr read_only ↦ rw (read_only, serve_upload) tt
        ],
      )

-- A writable session stores an uploaded file under the folder, in the directory that the last path
-- before it leads to, by the last part of its name.
pub upload-stored :
    (p : Str) (ps : List Str) (rel content : Str) (filename : Option Str) (fields : List Field)
    (r : Request) (now : ℕ) (sessions : Sessions) (sess : Session)
    → IsPlain p
    → All IsPlain ps
    → session_of r now sessions ≡ some sess
    → sess.root ≡ absolute (p ∷ ps)
    → sess.writable ≡ true
    → (handle_share_upload (path rel ∷ upload filename content ∷ fields) r now sessions).0
      ≡ stored (absolute (p ∷ ps ++ (clean_parts rel [] ++ (upload_name filename ∷ [])))) content
unfolding handle_share_upload
upload-stored p ps rel content filename fields r now sessions sess h k found root w =
    rw (found, handle_share_upload)
      (rw (w, serve_upload) (rw root (upload_stored p ps h k rel filename content fields)))
