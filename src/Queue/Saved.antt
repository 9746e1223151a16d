-- ===== src/Queue/Saved.antt =====
-- The queue under all of its methods: the file holds the queue, ids stay distinct, sizes add up.
use chatx.Prelude.{
  Write, ℕ, ◌+◌, ◌≡◌, refl, ◌≢◌, Bool, false, not, List, [], ◌∷◌, arith, nat_eq, contains, length,
  keep, count, any, length-keep-le, keep_of_length, any-keep-not, keep_of_none, keep_of_some,
  complete,
}
use chatx.Text.{Str, str_eq}
use chatx.Aliases.{dest_hash_for}
use chatx.Queue.{
  Entry, Queue, Peers, has_id, enqueue, remove_queue_entry, clear_queue, queue_size, queue_size_for,
  prune_stale_queue, queue_matches_target,
}
use chatx.Queue.Drain.{World, drain_queue, drain_pass}
use chatx.Queue.Conservation.{
  DistinctIds, keep-DistinctIds, snoc-DistinctIds, drain_loop-DistinctIds, keep-drain_loop,
}

-- The methods of queue.py that change the queue.
pub data Method : Type 0 where
  enqueue_entry : Entry → Method
  remove : Str → Method
  clear : Str → Method
  prune : List Str → Method
  drain : World → Bool → Str → ℕ → Bool → Method

module _ (p : Peers) (written : Write) where
  unfoldable pub run : Method → Queue → Queue
  run (enqueue_entry e) q = enqueue written e q
  run (remove id) q = (remove_queue_entry written id q).1
  run (clear target) q = clear_queue written p target q
  run (prune ids) q = (prune_stale_queue written ids q).1
  run (drain w include_files target now linked) q =
      (drain_queue p w include_files target now written linked q).1

-- Whatever the method of queue.py, and whether or not the file can be written, no id comes to stand twice.
pub run-DistinctIds :
    (p : Peers) (written : Write) (m : Method) (q : Queue)
    → DistinctIds q.message_queue
    → DistinctIds (run p written m q).message_queue
unfolding run enqueue remove_queue_entry clear_queue prune_stale_queue drain_queue drain_pass
run-DistinctIds p written (enqueue_entry e) q h =
    ground (arith, snoc-DistinctIds q.message_queue e h)
run-DistinctIds p written (remove id) q h =
    ground (arith, keep-DistinctIds (λ e. not (has_id id e)) q.message_queue h)
run-DistinctIds p written (clear target) q h =
    ground (arith, keep-DistinctIds (λ e. not (queue_matches_target p e target)) q.message_queue h)
run-DistinctIds p written (prune []) q h = h
run-DistinctIds p written (prune (id ∷ ids)) q h =
    ground (arith, keep-DistinctIds (λ e. not (contains e.msg_id (id ∷ ids))) q.message_queue h)
run-DistinctIds p written (drain w inc target now linked) q h = ground (
  arith,
  drain_loop-DistinctIds p w inc (dest_hash_for p.aliases target) now 0 [] q.message_queue h,
)

-- While the file can be written, it holds the queue after every method.
pub run_saves :
    (p : Peers) (m : Method) (q : Queue)
    → q.queue_file ≡ q.message_queue
    → (run p complete m q).queue_file ≡ (run p complete m q).message_queue
unfolding run enqueue remove_queue_entry clear_queue prune_stale_queue drain_queue drain_pass
run_saves p (enqueue_entry e) q h = ground arith
run_saves p (remove id) q h =
    let f : Entry → Bool = λ e. not (has_id id e) in
    ground (arith, keep_of_length f q.message_queue, length-keep-le f q.message_queue)
run_saves p (clear target) q h = refl
run_saves p (prune []) q h = h
run_saves p (prune (id ∷ ids)) q h =
    ground (arith, keep_of_length (λ e. not (contains e.msg_id (id ∷ ids))) q.message_queue)
run_saves p (drain w inc peer now linked) q h = ground arith

length-keep-count :
    (f : Entry → Bool) (xs : List Entry)
    → length (keep (λ e. not (f e)) xs) + count f xs ≡ length xs
unfolding keep count
length-keep-count f [] = refl
length-keep-count f (x ∷ xs) = ground (arith, length-keep-count f xs)

-- To clear the queue of a target takes away as many entries as its size for that target.
pub queue_size-clear_queue :
    (p : Peers) (written : Write) (target : Str) (q : Queue)
    → queue_size (clear_queue written p target q) + queue_size_for p target q ≡ queue_size q
unfolding queue_size clear_queue queue_size_for
queue_size-clear_queue p written target q =
    ground (arith, length-keep-count (λ e. queue_matches_target p e target) q.message_queue)

-- A confirmed delivery: the answer says whether the id stood in the queue, and afterwards it does not.
pub remove_queue_entry_lem :
    (written : Write) (id : Str) (q : Queue)
    → id ≢ []
    → ((remove_queue_entry written id q).0 ≡ any (has_id id) q.message_queue)
      × (any (has_id id) (remove_queue_entry written id q).1.message_queue ≡ false)
unfolding remove_queue_entry
remove_queue_entry_lem written id q h = ground (
  arith,
  any-keep-not (has_id id) q.message_queue,
  keep_of_none (has_id id) q.message_queue,
  keep_of_some (has_id id) q.message_queue,
)

-- A pass for one peer leaves the entries of the others as they are and in their order.
pub drain_queue_others :
    (p : Peers) (w : World) (include_files : Bool) (target : Str) (now : ℕ) (written : Write)
    (linked : Bool) (q : Queue)
    → keep
        (λ e. not (queue_matches_target p e (dest_hash_for p.aliases target)))
        (drain_queue p w include_files target now written linked q).1.message_queue
      ≡ keep (λ e. not (queue_matches_target p e (dest_hash_for p.aliases target))) q.message_queue
unfolding drain_queue drain_pass
drain_queue_others p w inc target now written linked q =
    ground
      (arith, keep-drain_loop p w inc (dest_hash_for p.aliases target) now 0 [] q.message_queue)
