-- ===== src/Queue/Tests.antt =====
-- Runs of the queue, and the theorems at concrete entries.
use chatx.Prelude.{
  complete, ◌+◌, ◌≡◌, refl, ◌⊎◌, true, false, not, none, some, List, [], ◌∷◌, ◌++◌, if◌then◌else◌,
  ◌==◌, nat_eq, contains, keep, any,
}
use chatx.Text.{Str, codes, str_eq, str_beq, lower, strip, remove_char}
use chatx.Aliases.{dest_hash_for}
use chatx.Queue.{Entry, Queue, Peers, has_id, enqueue, prune_stale_queue, queue_matches_target}
use chatx.Queue.Drain.{
  raised, World, accepted, text_types, file_types, drain_loop, drain_queue, drain_entry, drain_pass,
}
use chatx.Queue.Conservation.{DistinctIds}
use chatx.Queue.Saved.{run, enqueue_entry, run-DistinctIds, drain_queue_others}
use chatx.Queue.Accounting.{drain_queue_keeps_text}
use chatx.Queue.Faults.{after, before, drain_pass_drops_unknown, late_receipt_lost}
use chatx.Queue.Hub.{drain_hub_group_queue, drain_hub_loop, drain_hub_entry}
use chatx.Hash.{is_hub_peer_hash, normalize_hash}
use chatx.Aliases.{hashes_equivalent, dest_hash_for}
use chatx.Dict.{lookup}

abbrev entry : Str → Str → Str → Entry
entry type target id = record {
  type = type;
  content = codes "hi";
  target_hash = some target;
  file_name = none;
  file_size = none;
  file_path = none;
  msg_id = id;
  timestamp = 5;
  queue_sent_at = none;
}

abbrev peer : Str
peer = codes "aa"

abbrev text_a : Entry
text_a = entry (codes "text") peer (codes "m1")

abbrev browse_a : Entry
browse_a = entry (codes "share_browse") peer (codes "m2")

abbrev text_b : Entry
text_b = entry (codes "text") (codes "bb") (codes "m3")

abbrev es : List Entry
es = text_a ∷ browse_a ∷ text_b ∷ []

abbrev q : Queue
q = record { message_queue = es; queue_file = es }

abbrev p : Peers
p = record {
  aliases = record { identity_to_dest = []; dest_to_identity = [] };
  share_contact = λ a b. false;
}

-- Every send is accepted, and brings no receipt.
abbrev w : World
w = record {
  send = λ n e. record { answer = accepted; receipts = []; time = 12 };
  exists = λ f. false;
}

text_a_own : queue_matches_target p text_a peer ≡ true
unfolding queue_matches_target is_hub_peer_hash str_beq normalize_hash lower strip remove_char
    hashes_equivalent dest_hash_for lookup
text_a_own = refl

browse_a_own : queue_matches_target p browse_a peer ≡ true
unfolding queue_matches_target is_hub_peer_hash str_beq normalize_hash lower strip remove_char
    hashes_equivalent dest_hash_for lookup
browse_a_own = refl

text_b_foreign : queue_matches_target p text_b peer ≡ false
unfolding queue_matches_target is_hub_peer_hash str_beq normalize_hash lower strip remove_char
    hashes_equivalent dest_hash_for lookup
text_b_foreign = refl

is_text : contains (codes "text") text_types ≡ true
unfolding contains str_beq
is_text = refl

browse_is_no_text : contains (codes "share_browse") text_types ≡ false
unfolding contains str_beq
browse_is_no_text = refl

browse_is_no_file : contains (codes "share_browse") file_types ≡ false
unfolding contains str_beq
browse_is_no_file = refl

enqueued_once : enqueue complete text_a q ≡ q
unfolding enqueue str_beq
enqueued_once = refl

pruned : (prune_stale_queue complete (codes "m3" ∷ codes "m9" ∷ []) q).0 ≡ 1
unfolding prune_stale_queue keep contains str_beq
pruned = refl

es-DistinctIds : DistinctIds es
unfolding str_beq
es-DistinctIds = (refl, (refl, (refl, tt)))

run-DistinctIds_example : DistinctIds (run p complete (enqueue_entry text_a) q).message_queue
run-DistinctIds_example = run-DistinctIds p complete (enqueue_entry text_a) q es-DistinctIds

drain_queue_others_example :
    keep
      (λ e. not (queue_matches_target p e (dest_hash_for p.aliases peer)))
      (drain_queue p w true peer 10 complete true q).1.message_queue
    ≡ keep (λ e. not (queue_matches_target p e (dest_hash_for p.aliases peer))) q.message_queue
drain_queue_others_example = drain_queue_others p w true peer 10 complete true q

drain_queue_keeps_text_example :
    (any (has_id text_b.msg_id) (drain_queue p w true peer 10 complete true q).1.message_queue
      ≡ true)
    ⊎ (contains text_b.msg_id
          (drain_loop p w true (dest_hash_for p.aliases peer) 10 0 [] q.message_queue).confirmed
        ≡ true)
drain_queue_keeps_text_example =
    drain_queue_keeps_text p w true peer 10 complete true q (text_a ∷ browse_a ∷ []) [] text_b refl
      is_text

drain_pass_drops_unknown_example :
    ((drain_pass p w true peer 10 complete q).0
      ≡ (before p w true peer 10 (text_a ∷ [])).sent
        + (after p w true peer 10 (text_a ∷ []) (text_b ∷ [])).sent)
    × ((drain_pass p w true peer 10 complete q).1.message_queue
        ≡ (before p w true peer 10 (text_a ∷ [])).kept
          ++ (after p w true peer 10 (text_a ∷ []) (text_b ∷ [])).kept)
drain_pass_drops_unknown_example =
    drain_pass_drops_unknown p w true peer 10 complete q (text_a ∷ []) (text_b ∷ []) browse_a refl
      browse_a_own browse_is_no_text browse_is_no_file

-- The receipt for the first text comes in while the second is sent.
abbrev slow : World
slow = record {
  send = λ n e. record {
    answer = accepted;
    receipts = if n == 0 then [] else codes "m1" ∷ [];
    time = 12;
  };
  exists = λ f. false;
}

abbrev two : Queue
two = record {
  message_queue = text_a ∷ entry (codes "text") peer (codes "m4") ∷ [];
  queue_file = [];
}

receipt_came :
    contains (codes "m1") (drain_loop p slow true peer 10 0 [] two.message_queue).confirmed ≡ true
unfolding drain_loop contains drain_entry queue_matches_target is_hub_peer_hash str_beq
    normalize_hash lower strip remove_char hashes_equivalent dest_hash_for lookup
receipt_came = refl

no_receipts : contains text_a.msg_id ((slow.send 0 text_a).receipts ++ []) ≡ false
unfolding contains
no_receipts = refl

late_receipt_lost_example :
    any (has_id text_a.msg_id) (drain_pass p slow true peer 10 complete two).1.message_queue ≡ true
unfolding drain_loop
late_receipt_lost_example =
    late_receipt_lost p slow true peer 10 complete two []
      (entry (codes "text") peer (codes "m4") ∷ []) text_a refl text_a_own is_text refl refl
      no_receipts

abbrev for_group : Entry
for_group = entry (codes "text") (codes "__hub_group__") (codes "m7")

abbrev hub_queue : Queue
hub_queue = record { message_queue = for_group ∷ text_b ∷ []; queue_file = [] }

hub_sent : (drain_hub_group_queue (λ n e. accepted) (λ f. false) complete true hub_queue).0 ≡ some 1
unfolding drain_hub_group_queue is_hub_peer_hash str_beq normalize_hash lower strip remove_char
    drain_hub_loop drain_hub_entry
hub_sent = refl

-- An exception of the send leaves the entries where they are.
hub_raised :
    drain_hub_group_queue (λ n e. raised) (λ f. false) complete true hub_queue ≡ (none, hub_queue)
unfolding drain_hub_group_queue is_hub_peer_hash str_beq normalize_hash lower strip remove_char
    drain_hub_loop drain_hub_entry
hub_raised = refl
