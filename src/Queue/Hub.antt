-- ===== src/Queue/Hub.antt =====
-- `drain_hub_group_queue` (chatx5/core/messaging/hub.py): one pass over the queue for the hub's group.
-- Whether the hub is online with a link, and what each send answers, are parameters.
use chatx.Prelude.{
  some, none, Option, Write, ℕ, suc, ◌+◌, ◌≡◌, Bool, not, ◌&&◌, List, [], ◌∷◌, ◌++◌, if◌then◌else◌,
  nat_eq, contains, length, keep, any,
}
use chatx.Text.{Str, codes, truthy, or_empty, or_else, str_eq}
use chatx.Hash.{is_hub_peer_hash}
use chatx.Queue.{Entry, Queue, save_queue}
use chatx.Queue.Drain.{raised, refused, accepted, Answer, file_types}

abbrev hub_text_types : List Str
hub_text_types = codes "text" ∷ codes "emoji" ∷ codes "share_browse" ∷ []

abbrev pub for_hub : Entry → Bool
for_hub e = is_hub_peer_hash (or_empty e.target_hash)

-- What is kept and the number of sends that succeeded, or an exception of a send.
abbrev pub Pass : Type 0
Pass = Option (List Entry × ℕ)

-- After `send_hub_message` or `send_hub_file`, whose exceptions are not caught.
abbrev hub_sent : Entry → Answer → Pass
hub_sent e accepted = some ([], 1)
hub_sent e refused = some (e ∷ [], 0)
hub_sent e raised = none

-- The rest of the loop, unless an exception has left it.
abbrev and_then : Pass → Pass → Pass
and_then none r = none
and_then (some s) none = none
and_then (some s) (some r) = some (s.0 ++ r.0, s.1 + r.1)

-- The answer, if there is one, and the queue: an exception leaves the queue and its file as they are.
abbrev end_of : Write → Queue → Pass → Option ℕ × Queue
end_of written q none = (none, q)
end_of written q (some r) = (some r.1, save_queue written (record q { message_queue = r.0 }))

-- What the loop keeps and sends of some entries, if no exception leaves it.
abbrev Counts : List Entry → Pass → Type 0
Counts es none = Unit
Counts es (some r) =
    (length r.0 + r.1 ≡ length es)
    × (keep (λ x. not (for_hub x)) r.0 ≡ keep (λ x. not (for_hub x)) es)

module _ (send : ℕ → Entry → Answer) (isfile : Str → Bool) where
  -- What the pass makes of the n-th entry.
  unfoldable pub drain_hub_entry : ℕ → Entry → Pass
  drain_hub_entry n e =
      let fp = or_else (or_empty e.file_path) e.content in
      if not (for_hub e)
      then some (e ∷ [], 0)
      else if not (contains e.type hub_text_types) && not (contains e.type file_types)
      then some (e ∷ [], 0)
      else if contains e.type file_types && not (truthy fp && isfile fp)
      then some (e ∷ [], 0)
      else hub_sent e (send n e)

  unfoldable pub drain_hub_loop : ℕ → List Entry → Pass
  drain_hub_loop n [] = some ([], 0)
  drain_hub_loop n (e ∷ es) = and_then (drain_hub_entry n e) (drain_hub_loop (suc n) es)

  -- `linked` says whether the hub is online and a target of the group has a link.
  unfoldable pub drain_hub_group_queue : Write → Bool → Queue → Option ℕ × Queue
  drain_hub_group_queue written linked q =
      if any for_hub q.message_queue && linked
      then end_of written q (drain_hub_loop 0 q.message_queue)
      else (some 0, q)

-- The number of sends that a pass answers, or 0 after an exception.
abbrev pub answered : Option ℕ → ℕ
answered none = 0
answered (some n) = n
