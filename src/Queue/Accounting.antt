-- ===== src/Queue/Accounting.antt =====
-- Where the entries of a pass go: a text leaves the queue only with its receipt.
use chatx.Prelude.{
  Write, ℕ, suc, ◌≤◌, ◌≡◌, refl, ◌⊎◌, Bool, true, ◌||◌, List, [], ◌∷◌, ◌++◌, arith, if◌then◌else◌,
  nat_eq, contains, count, any,
}
use chatx.Text.{Str, str_eq, str_beq_iff}
use chatx.Aliases.{dest_hash_for}
use chatx.Queue.{Entry, Queue, Peers, has_id, queue_matches_target}
use chatx.Queue.Drain.{
  World, Step, forget_sent, text_types, drain_entry, drain_loop, drain_queue, drain_pass,
}

any-append : (f : Entry → Bool) (xs ys : List Entry) → any f (xs ++ ys) ≡ (any f xs || any f ys)
any-append f [] ys = refl
any-append f (x ∷ xs) ys = ground (arith, any-append f xs ys)

contains-append :
    (i : Str) (xs ys : List Str) → contains i (xs ++ ys) ≡ (contains i xs || contains i ys)
unfolding contains
contains-append i [] ys = refl
contains-append i (x ∷ xs) ys = ground (arith, contains-append i xs ys)

module _ (p : Peers) (w : World) (include_files : Bool) (peer : Str) (now : ℕ) where
  abbrev step : ℕ → List Str → Entry → Step
  step = drain_entry p w include_files peer now

  abbrev loop : ℕ → List Str → List Entry → Step
  loop = drain_loop p w include_files peer now

  step-confirmed :
      (n : ℕ) (c : List Str) (e : Entry) (i : Str)
      → contains i c ≡ true
      → contains i (step n c e).confirmed ≡ true
  unfolding drain_entry
  step-confirmed n c e i h = ground (
    arith,
    contains-append i (w.send n (forget_sent e)).receipts c,
    contains-append i (w.send n e).receipts c,
  )

  loop-confirmed :
      (n : ℕ) (c : List Str) (es : List Entry) (i : Str)
      → contains i c ≡ true
      → contains i (loop n c es).confirmed ≡ true
  unfolding drain_loop
  loop-confirmed n c [] i h = h
  loop-confirmed n c (e ∷ es) i h =
      loop-confirmed (suc n) (step n c e).confirmed es i (step-confirmed n c e i h)

  -- The entry's id stands in the queue that is left, or its receipt has come in.
  abbrev Safe : Str → Step → Type 0
  Safe i s = (any (has_id i) s.kept ≡ true) ⊎ (contains i s.confirmed ≡ true)

  step-Safe :
      (n : ℕ) (c : List Str) (e : Entry)
      → contains e.type text_types ≡ true
      → Safe e.msg_id (step n c e)
  unfolding drain_entry
  step-Safe n c e t = ground (arith, str_beq_iff e.msg_id e.msg_id)

  loop-Safe :
      (n : ℕ) (c : List Str) (pre post : List Entry) (e : Entry)
      → contains e.type text_types ≡ true
      → Safe e.msg_id (loop n c (pre ++ (e ∷ post)))
  unfolding drain_loop
  loop-Safe n c [] post e t =
      let s = step n c e in
      let r = loop (suc n) s.confirmed post in
      ground (
        arith,
        step-Safe n c e t,
        any-append (has_id e.msg_id) s.kept r.kept,
        loop-confirmed (suc n) s.confirmed post e.msg_id,
      )
  loop-Safe n c (x ∷ pre) post e t =
      let s = step n c x in
      let r = loop (suc n) s.confirmed (pre ++ (e ∷ post)) in
      ground (
        arith,
        loop-Safe (suc n) s.confirmed pre post e t,
        any-append (has_id e.msg_id) s.kept r.kept,
      )

  step-sent :
      (n : ℕ) (c : List Str) (e : Entry)
      → (step n c e).sent ≤ (if queue_matches_target p e peer then 1 else 0)
  unfolding drain_entry
  step-sent n c e = ground arith

  loop-sent :
      (n : ℕ) (c : List Str) (es : List Entry)
      → (loop n c es).sent ≤ count (λ e. queue_matches_target p e peer) es
  unfolding drain_loop count
  loop-sent n c [] = omega arith
  loop-sent n c (e ∷ es) =
      omega (arith, step-sent n c e, loop-sent (suc n) (step n c e).confirmed es)

  pass_keeps_text :
      (written : Write) (q : Queue) (pre post : List Entry) (e : Entry)
      → q.message_queue ≡ pre ++ (e ∷ post)
      → contains e.type text_types ≡ true
      → (any (has_id e.msg_id) (drain_pass p w include_files peer now written q).1.message_queue
          ≡ true)
        ⊎ (contains e.msg_id (loop 0 [] q.message_queue).confirmed ≡ true)
  unfolding drain_pass
  pass_keeps_text written q pre post e split t =
      rw (split, drain_pass) (ground (arith, loop-Safe 0 [] pre post e t))

has_id_mid : (pre post : List Entry) (e : Entry) → any (has_id e.msg_id) (pre ++ (e ∷ post)) ≡ true
has_id_mid pre post e =
    ground (arith, any-append (has_id e.msg_id) pre (e ∷ post), str_beq_iff e.msg_id e.msg_id)

-- A queued text is not lost: after a call for any peer its id stands in the queue, or a receipt for it
-- has come in during the pass, whatever the sends answered.
pub drain_queue_keeps_text :
    (p : Peers) (w : World) (include_files : Bool) (target : Str) (now : ℕ) (written : Write)
    (linked : Bool) (q : Queue) (pre post : List Entry) (e : Entry)
    → q.message_queue ≡ pre ++ (e ∷ post)
    → contains e.type text_types ≡ true
    → let peer = dest_hash_for p.aliases target in
      (any
          (has_id e.msg_id)
          (drain_queue p w include_files target now written linked q).1.message_queue
        ≡ true)
      ⊎ (contains e.msg_id (drain_loop p w include_files peer now 0 [] q.message_queue).confirmed
          ≡ true)
unfolding drain_queue
drain_queue_keeps_text p w inc target now written linked q pre post e split t =
    let peer = dest_hash_for p.aliases target in
    let there : any (has_id e.msg_id) q.message_queue ≡ true = rw split (has_id_mid pre post e) in
    ground (arith, there, pass_keeps_text p w inc peer now written q pre post e split t)

-- The number that a call answers is at most the number of queued entries for the peer.
pub drain_queue_sent :
    (p : Peers) (w : World) (include_files : Bool) (target : Str) (now : ℕ) (written : Write)
    (linked : Bool) (q : Queue)
    → (drain_queue p w include_files target now written linked q).0
      ≤ count (λ e. queue_matches_target p e (dest_hash_for p.aliases target)) q.message_queue
unfolding drain_queue drain_pass
drain_queue_sent p w inc target now written linked q =
    ground (arith, loop-sent p w inc (dest_hash_for p.aliases target) now 0 [] q.message_queue)
