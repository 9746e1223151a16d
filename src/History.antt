-- ===== src/History.antt =====
-- The chat history (chatx5/web/history_store.py): the list `message_history` and the list that the history
-- file gives back when it is loaded. A field that is missing is the empty text, a missing time 0; a write may fail, which the
-- code passes over.
pub mod Kept
mod Tests
use chatx.Prelude.{
  file_after, Write, ℕ, zero, suc, ◌+◌, ◌-◌, ◌*◌, ◌/◌, ◌%◌, ◌≤◌, ◌<◌, max, min, ◌≡◌, refl, sym, ap,
  ◌∙◌, ◌≢◌, ◌↔◌, ◌⊎◌, inl, inr, Bool, true, false, not, ◌&&◌, ◌||◌, Option, none, some, List, [],
  ◌∷◌, ◌++◌, map, append-nil, append_assoc, arith, ltb, leb, nat_beq, nat_beq_iff, if◌then◌else◌,
  Bool-cases, Option-cases, Eq, ◌==◌, nat_eq, contains, length, drop, take, keep, count, any, all,
  length-append, length-drop, length-keep-le, keep-append, keep-keep, All, All-append, All-keep,
  All-drop,
}
use chatx.Text.{Str, codes, truthy, or_else, strip, starts_with, includes, str_eq}
use chatx.Hash.{hub_group_peer}
use chatx.Aliases.{Aliases, dest_hash_for, hashes_equivalent}

pub record Message : Type 0 where
  pub type : Str
  pub content : Str
  pub sender : Str
  pub chat_peer : Str
  pub peer : Str
  pub timestamp : ℕ
  pub msg_id : Str

pub record History : Type 0 where
  pub message_history : List Message
  pub history_file : List Message

-- `_peer_dest_hash` of the server, once the messaging backend runs.
unfoldable pub peer_dest_hash : Aliases → Str → Str
peer_dest_hash a any_hash =
    if any_hash == hub_group_peer then hub_group_peer else dest_hash_for a any_hash

abbrev pub history_peer : Aliases → Message → Str
history_peer a entry = peer_dest_hash a (or_else entry.chat_peer entry.peer)

abbrev pub should_persist_history : Aliases → Str → Bool
should_persist_history a peer_hash =
    let peer = peer_dest_hash a peer_hash in truthy peer && not (peer == codes "unknown")

-- The messages of the history that go to the file.
abbrev pub persists : Aliases → Message → Bool
persists a m = should_persist_history a (history_peer a m)

-- `xs[-n:]` for a positive `n`
abbrev pub last_of : ℕ → List Message → List Message
last_of n xs = drop (length xs - n) xs

unfoldable pub save_history : Aliases → Write → History → History
save_history a written h = record h {
  history_file =
      file_after written (last_of 1000 (keep (persists a) h.message_history)) h.history_file;
}

-- `_load_history`, of a file that can be read.
unfoldable pub load_history : Aliases → List Message → List Message
load_history a loaded = keep (persists a) loaded

abbrev pub has_msg_id : Str → Message → Bool
has_msg_id id m = m.msg_id == id

-- `_remove_history_message`: the answer, and the history.
unfoldable pub remove_history_message : Aliases → Write → Str → History → Bool × History
remove_history_message a written msg_id h =
    let clean = strip msg_id in
    let left = keep (λ m. not (has_msg_id clean m)) h.message_history in
    let h' = record h { message_history = left } in
    if not (truthy clean)
    then (false, h)
    else if length left == length h.message_history
    then (false, h')
    else (true, save_history a written h')

-- `handle_delete_message`: the status, and the history.
unfoldable pub handle_delete_message : Aliases → Write → Str → History → ℕ × History
handle_delete_message a written msg_id h =
    let left = keep (λ m. not (has_msg_id msg_id m)) h.message_history in
    let h' = record h { message_history = left } in
    if not (truthy msg_id)
    then (400, h)
    else if length left == length h.message_history
    then (404, h')
    else (200, save_history a written h')

abbrev link_closed : Str → Bool
link_closed content = includes content (codes "Link closed")

-- `_is_session_system_message`
unfoldable pub is_session_system_message : Message → Bool
is_session_system_message m =
    if not (m.type == codes "system") && not (m.sender == codes "system")
    then false
    else starts_with m.content (codes "Link established with ")
      || link_closed m.content
      || starts_with m.content (codes "Connected to ")

abbrev pub session_system_link_closed_ttl : ℕ
session_system_link_closed_ttl = 600

-- What stays: all but the messages of a session, of which the closing of a link stays for a while.
unfoldable pub stays : ℕ → Message → Bool
stays now m =
    if not (is_session_system_message m)
    then true
    else link_closed m.content && ltb now (m.timestamp + session_system_link_closed_ttl)

unfoldable pub prune_stale_session_system_messages : Aliases → Write → ℕ → History → History
prune_stale_session_system_messages a written now h =
    let kept = keep (stays now) h.message_history in
    if not (length kept == length h.message_history)
    then save_history a written (record h { message_history = kept })
    else h

-- The limits in seconds; 0 stands for no limit.
unfoldable pub retention_seconds : Str → ℕ
retention_seconds retention =
    if retention == codes "1d"
    then 86400
    else if retention == codes "1w"
    then 604800
    else if retention == codes "1m"
    then 2592000
    else if retention == codes "6m"
    then 15552000
    else if retention == codes "12m"
    then 31536000
    else 0

unfoldable pub apply_retention : Str → ℕ → History → History
apply_retention retention now h =
    let seconds = retention_seconds retention in
    if retention == codes "never" then h else if seconds == 0 then h else record h {
      message_history = keep (λ m. ltb now (m.timestamp + seconds)) h.message_history;
    }

-- `_history_matches_peer`
unfoldable pub history_matches_peer : Aliases → Str → List Str → Bool
history_matches_peer a entry_peer target_aliases =
    let clean = peer_dest_hash a entry_peer in
    if not (truthy entry_peer) || not (truthy clean)
    then false
    else contains clean target_aliases
      || any (λ alias. hashes_equivalent a clean alias) target_aliases

-- `_clear_history_for_peer`, where `aliases` are those that `_history_peer_aliases` finds: the number of
-- messages taken away, and the history.
unfoldable pub clear_history_for_peer :
    Aliases → Write → (aliases extra_aliases : List Str) → History → ℕ × History
clear_history_for_peer a written aliases extra_aliases h =
    let targets = aliases ++ keep truthy (map (peer_dest_hash a) extra_aliases) in
    let matches : Message → Bool =
      λ m. history_matches_peer a (or_else m.chat_peer m.peer) targets in
    let left = keep (λ m. not (matches m)) h.message_history in
    if not (any (λ x. true) targets) then (0, h) else (
      length h.message_history - length left,
      save_history a written (record h { message_history = left }),
    )
