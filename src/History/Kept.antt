-- ===== src/History/Kept.antt =====
-- Which messages the history keeps, in memory and on disk.
use chatx.Prelude.{
  Write, ℕ, ◌+◌, ◌-◌, ◌≤◌, ◌≡◌, refl, ap, ◌≢◌, Bool, true, not, List, [], ◌∷◌, arith, ltb,
  if◌then◌else◌, nat_eq, length, keep, any, All, All-drop, any-keep-not, keep_of_none, keep_of_some,
  complete,
}
use chatx.Text.{Str, str_eq}
use chatx.Aliases.{Aliases}
use chatx.History.{
  Message, History, persists, last_of, save_history, load_history, has_msg_id,
  handle_delete_message, is_session_system_message, stays, prune_stale_session_system_messages,
  retention_seconds, apply_retention,
}

keep_of_All : (f : Message → Bool) (xs : List Message) → All (λ m. f m ≡ true) xs → keep f xs ≡ xs
unfolding keep
keep_of_All f [] h = refl
keep_of_All f (x ∷ xs) h = rw h.0 (ap (◌∷◌ x) (keep_of_All f xs h.1))

keep-All : (f : Message → Bool) (xs : List Message) → All (λ m. f m ≡ true) (keep f xs)
unfolding keep
keep-All f [] = tt
keep-All f (x ∷ xs) = ground (arith, keep-All f xs)

-- What is saved comes back: a history that could be written is read again as its last thousand
-- messages with a known peer, in their order.
pub load_history-save_history :
    (a : Aliases) (h : History)
    → load_history a (save_history a complete h).history_file
      ≡ last_of 1000 (keep (persists a) h.message_history)
unfolding load_history save_history
load_history-save_history a h =
    let kept = keep (persists a) h.message_history in
    keep_of_All (persists a) (last_of 1000 kept) (
      All-drop (λ m. persists a m ≡ true) (length kept - 1000) kept
        (keep-All (persists a) h.message_history))

-- A message is deleted by its id, which is not empty: the status says whether it was there, exactly the messages with
-- another id stay, and a second request for the id finds nothing.
pub handle_delete_message_lem :
    (a : Aliases) (written again : Write) (id : Str) (h : History)
    → id ≢ []
    → ((handle_delete_message a written id h).0
        ≡ (if any (has_msg_id id) h.message_history then 200 else 404))
      × ((handle_delete_message a written id h).1.message_history
          ≡ keep (λ m. not (has_msg_id id m)) h.message_history)
      × ((handle_delete_message a again id (handle_delete_message a written id h).1).0 ≡ 404)
unfolding handle_delete_message save_history
handle_delete_message_lem a written again id h given =
    let f : Message → Bool = has_msg_id id in
    let xs = h.message_history in
    ground (
      arith,
      any-keep-not f xs,
      keep_of_none f xs,
      keep_of_some f xs,
      keep_of_none f (keep (λ m. not (f m)) xs),
    )

keep-stays :
    (now : ℕ) (xs : List Message)
    → keep (λ m. not (is_session_system_message m)) (keep (stays now) xs)
      ≡ keep (λ m. not (is_session_system_message m)) xs
unfolding keep stays
keep-stays now [] = refl
keep-stays now (x ∷ xs) = ground (arith, keep-stays now xs)

-- To prune the messages of sessions loses no message of a chat.
pub prune_keeps_chat :
    (a : Aliases) (written : Write) (now : ℕ) (h : History)
    → keep
        (λ m. not (is_session_system_message m))
        (prune_stale_session_system_messages a written now h).message_history
      ≡ keep (λ m. not (is_session_system_message m)) h.message_history
unfolding prune_stale_session_system_messages save_history
prune_keeps_chat a written now h = ground (arith, keep-stays now h.message_history)

keep_retained :
    (now later seconds : ℕ) (xs : List Message)
    → now ≤ later
    → keep (λ m. ltb later (m.timestamp + seconds)) (keep (λ m. ltb now (m.timestamp + seconds)) xs)
      ≡ keep (λ m. ltb later (m.timestamp + seconds)) xs
unfolding keep
keep_retained now later seconds [] h = refl
keep_retained now later seconds (x ∷ xs) h = ground (arith, keep_retained now later seconds xs h)

-- Retention does not depend on how often it ran before: to apply it now and again later leaves the same
-- history as to apply it later alone.
pub apply_retention_later :
    (retention : Str) (now later : ℕ) (h : History)
    → now ≤ later
    → apply_retention retention later (apply_retention retention now h)
      ≡ apply_retention retention later h
unfolding apply_retention
apply_retention_later retention now later h le =
    ground (arith, keep_retained now later (retention_seconds retention) h.message_history le)
