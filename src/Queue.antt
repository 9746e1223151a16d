-- ===== src/Queue.antt =====
-- The queue of messages that wait for a link (chatx5/core/messaging/queue.py). The state is the list
-- `message_queue` and the list that the queue file gives back when it is loaded; a write of the file may fail,
-- which the code passes over. The peer maps of `Aliases` and the saved contacts decide which entries a peer gets.
pub mod Drain
pub mod Saved
pub mod Conservation
pub mod Accounting
pub mod Faults
pub mod Hub
mod Tests
use chatx.Prelude.{
  file_after, Write, ℕ, ◌+◌, ◌-◌, Bool, true, false, not, ◌&&◌, ◌||◌, Option, none, some, List, [],
  ◌∷◌, ◌++◌, ◌==◌, nat_eq, ltb, keep, count, any, length, contains, if◌then◌else◌,
}
use chatx.Text.{Str, truthy, given, or_empty, str_eq}
use chatx.Hash.{is_hub_peer_hash}
use chatx.Aliases.{Aliases, hashes_equivalent}

-- An entry; `queue_sent_at` is its field `_queue_sent_at`.
pub record Entry : Type 0 where
  pub type : Str
  pub content : Str
  pub target_hash : Option Str
  pub file_name : Option Str
  pub file_size : Option ℕ
  pub file_path : Option Str
  pub msg_id : Str
  pub timestamp : ℕ
  pub queue_sent_at : Option ℕ

pub record Queue : Type 0 where
  pub message_queue : List Entry
  pub queue_file : List Entry

-- `_save_queue`
abbrev pub save_queue : Write → Queue → Queue
save_queue written q = record q { queue_file = file_after written q.message_queue q.queue_file }

-- The peers of the backend: its maps, and whether two hashes belong to one saved contact.
pub record Peers : Type 0 where
  pub aliases : Aliases
  pub share_contact : Str → Str → Bool

abbrev pub has_id : Str → Entry → Bool
has_id id e = e.msg_id == id

-- `enqueue`, for an entry whose id and time have been filled in.
unfoldable pub enqueue : Write → Entry → Queue → Queue
enqueue written entry q =
    if any (has_id entry.msg_id) q.message_queue
    then q
    else save_queue written (record q { message_queue = q.message_queue ++ (entry ∷ []) })

abbrev is_same : Bool → Bool → Bool
is_same true b = b
is_same false b = not b

-- `_queue_matches_target`; the empty text is no target.
unfoldable pub queue_matches_target : Peers → Entry → Str → Bool
queue_matches_target p entry target_hash =
    let tgt = or_empty entry.target_hash in
    if not (truthy tgt)
    then not (truthy target_hash)
    else if not (truthy target_hash)
    then false
    else if not (is_same (is_hub_peer_hash tgt) (is_hub_peer_hash target_hash))
    then false
    else if hashes_equivalent p.aliases tgt target_hash
    then true
    else p.share_contact tgt target_hash

-- `_remove_queue_entry`: the answer, and the queue.
unfoldable pub remove_queue_entry : Write → Str → Queue → Bool × Queue
remove_queue_entry written msg_id q =
    let left = keep (λ e. not (has_id msg_id e)) q.message_queue in
    if not (truthy msg_id)
    then (false, q)
    else if ltb (length left) (length q.message_queue)
    then (true, save_queue written (record q { message_queue = left }))
    else (false, record q { message_queue = left })

unfoldable pub clear_queue : Write → Peers → Str → Queue → Queue
clear_queue written p target_hash q = save_queue written (record q {
  message_queue =
      if not (truthy target_hash)
      then []
      else keep (λ e. not (queue_matches_target p e target_hash)) q.message_queue;
})

unfoldable pub queue_size : Queue → ℕ
queue_size q = length q.message_queue

unfoldable pub queue_size_for : Peers → Str → Queue → ℕ
unfolding count
queue_size_for p target_hash q =
    if not (truthy target_hash)
    then length q.message_queue
    else count (λ e. queue_matches_target p e target_hash) q.message_queue

-- `prune_stale_queue`: the number of entries dropped, and the queue.
unfoldable pub prune_stale_queue : Write → List Str → Queue → ℕ × Queue
prune_stale_queue written [] q = (0, q)
prune_stale_queue written (id ∷ ids) q =
    let left = keep (λ e. not (contains e.msg_id (id ∷ ids))) q.message_queue in
    let q' = record q { message_queue = left } in
    (
      length q.message_queue - length left,
      if not (length left == length q.message_queue) then save_queue written q' else q',
    )
