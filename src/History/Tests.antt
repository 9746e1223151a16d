-- ===== src/History/Tests.antt =====
-- Runs of the history, and the theorems at concrete messages.
use chatx.Prelude.{
  if◌then◌else◌, any, not, ◌≢◌, cut_off, complete, ℕ, ◌≡◌, refl, true, [], ◌∷◌, nat_eq, keep,
}
use chatx.Text.{Str, codes, str_beq, starts_with, includes}
use chatx.Aliases.{Aliases}
use chatx.History.{
  has_msg_id, handle_delete_message, Message, History, persists, last_of, save_history,
  load_history, is_session_system_message, prune_stale_session_system_messages, stays,
}
use chatx.History.Kept.{handle_delete_message_lem, load_history-save_history}

abbrev message : Str → Str → ℕ → Message
message content sender time = record {
  type = codes "text";
  content = content;
  sender = sender;
  chat_peer = codes "abcd";
  peer = [];
  timestamp = time;
  msg_id = content;
}

abbrev hello : Message
hello = message (codes "hello") (codes "abcd") 100

abbrev closed : Message
closed = message (codes "Link closed") (codes "system") 200

abbrev h : History
h = record { message_history = hello ∷ closed ∷ []; history_file = [] }

abbrev a : Aliases
a = record { identity_to_dest = []; dest_to_identity = [] }

closed_is_session : is_session_system_message closed ≡ true
unfolding is_session_system_message str_beq starts_with includes
closed_is_session = refl

pruned_late : (prune_stale_session_system_messages a cut_off 900 h).message_history ≡ hello ∷ []
unfolding prune_stale_session_system_messages keep stays is_session_system_message str_beq
    starts_with includes save_history
pruned_late = refl

load_history-save_history_example :
    load_history a (save_history a complete h).history_file
    ≡ last_of 1000 (keep (persists a) h.message_history)
load_history-save_history_example = load_history-save_history a h

id_given : codes "hello" ≢ []
id_given = λ e. cc e

handle_delete_message_lem_example :
    ((handle_delete_message a cut_off (codes "hello") h).0
      ≡ (if any (has_msg_id (codes "hello")) h.message_history then 200 else 404))
    × ((handle_delete_message a cut_off (codes "hello") h).1.message_history
        ≡ keep (λ m. not (has_msg_id (codes "hello") m)) h.message_history)
    × ((handle_delete_message a complete
          (codes "hello")
          (handle_delete_message a cut_off (codes "hello") h).1).0
        ≡ 404)
handle_delete_message_lem_example =
    handle_delete_message_lem a cut_off complete (codes "hello") h id_given
