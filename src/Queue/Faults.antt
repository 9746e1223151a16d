-- ===== src/Queue/Faults.antt =====
-- What a pass over the queue loses, and what it brings back.
use mathlib.Core.Path.{ap₂}
use chatx.Prelude.{
  length, ◌+◌, ◌∙◌, ap, append_assoc, Write, ℕ, suc, ◌≡◌, sym, Bool, true, false, List, [], ◌∷◌,
  ◌++◌, arith, nat_eq, contains, any,
}
use chatx.Text.{Str, str_eq, str_beq_iff}
use chatx.Queue.{Entry, Queue, Peers, has_id, queue_matches_target}
use chatx.Queue.Drain.{
  forget_sent, awaits_receipt, Step, World, accepted, text_types, file_types, drain_entry,
  drain_loop, drain_pass,
}
use chatx.Queue.Conservation.{any-append}

abbrev joined : Step → Step → Step
joined s r = record { kept = s.kept ++ r.kept; sent = s.sent + r.sent; confirmed = r.confirmed }

joined_nothing :
    (c : List Str) (r : Step) → joined (record { kept = []; sent = 0; confirmed = c }) r ≡ r
joined_nothing c r =
    ap (λ (m : ℕ). record { kept = r.kept; sent = m; confirmed = r.confirmed }) (omega arith)

joined_assoc : (s t r : Step) → joined s (joined t r) ≡ joined (joined s t) r
joined_assoc s t r =
    ap₂ (λ (k : List Entry) (m : ℕ). record { kept = k; sent = m; confirmed = r.confirmed })
      (sym (append_assoc s.kept t.kept r.kept)) (omega arith)

-- The loop over the entries before an entry, from the start.
abbrev pub before : Peers → World → Bool → Str → ℕ → List Entry → Step
before p w include_files peer now pre = drain_loop p w include_files peer now 0 [] pre

-- The loop over the entries after it.
abbrev pub after : Peers → World → Bool → Str → ℕ → List Entry → List Entry → Step
after p w include_files peer now pre post =
    drain_loop p w include_files peer now (suc (length pre))
      (before p w include_files peer now pre).confirmed post

module _ (p : Peers) (w : World) (include_files : Bool) (peer : Str) (now : ℕ) where
  -- The loop goes over the entries after another list where it stands after that list.
  drain_loop-append :
      (n : ℕ) (c : List Str) (pre post : List Entry)
      → let s = drain_loop p w include_files peer now n c pre in
        drain_loop p w include_files peer now n c (pre ++ post)
        ≡ joined s (drain_loop p w include_files peer now (n + length pre) s.confirmed post)
  unfolding drain_loop
  drain_loop-append n c [] post =
      ap (λ m. drain_loop p w include_files peer now m c post) (omega arith)
      ∙ sym (joined_nothing c (drain_loop p w include_files peer now (n + 0) c post))
  drain_loop-append n c (x ∷ pre) post =
      let s = drain_entry p w include_files peer now n c x in
      let t = drain_loop p w include_files peer now (suc n) s.confirmed pre in
      ap (joined s) (drain_loop-append (suc n) s.confirmed pre post)
      ∙ joined_assoc s t
          (drain_loop p w include_files peer now (suc n + length pre) t.confirmed post)
      ∙ ap (λ m. joined (joined s t) (drain_loop p w include_files peer now m t.confirmed post))
          (omega arith)

  drain_entry_unknown :
      (n : ℕ) (c : List Str) (e : Entry)
      → queue_matches_target p e peer ≡ true
      → contains e.type text_types ≡ false
      → contains e.type file_types ≡ false
      → drain_entry p w include_files peer now n c e ≡ record { kept = []; sent = 0; confirmed = c }
  unfolding drain_entry
  drain_entry_unknown n c e own t f = rw (own, t, f)

  -- The loop goes on after an entry of an unknown type as if it had not been there.
  drain_loop_unknown :
      (n : ℕ) (c : List Str) (e : Entry) (post : List Entry)
      → queue_matches_target p e peer ≡ true
      → contains e.type text_types ≡ false
      → contains e.type file_types ≡ false
      → drain_loop p w include_files peer now n c (e ∷ post)
        ≡ drain_loop p w include_files peer now (suc n) c post
  unfolding drain_loop
  drain_loop_unknown n c e post own t f =
      ap (λ (s : Step). joined s (drain_loop p w include_files peer now (suc n) s.confirmed post))
        (drain_entry_unknown n c e own t f)
      ∙ joined_nothing c (drain_loop p w include_files peer now (suc n) c post)

  loop_without :
      (pre post : List Entry) (e : Entry)
      → queue_matches_target p e peer ≡ true
      → contains e.type text_types ≡ false
      → contains e.type file_types ≡ false
      → drain_loop p w include_files peer now 0 [] (pre ++ (e ∷ post))
        ≡ joined (before p w include_files peer now pre) (after p w include_files peer now pre post)
  loop_without pre post e own t f =
      let s = before p w include_files peer now pre in
      drain_loop-append 0 [] pre (e ∷ post)
      ∙ ap (joined s) (
          drain_loop_unknown (0 + length pre) s.confirmed e post own t f
          ∙ ap (λ m. drain_loop p w include_files peer now (suc m) s.confirmed post) (omega arith))

-- An entry for the peer whose type is neither a text's nor a file's, such as the offer of a shared
-- folder, is dropped by a pass with a link without being sent: the pass answers the sends for the entries
-- before it and for those after it, and leaves in the queue what it keeps of these.
pub drain_pass_drops_unknown :
    (p : Peers) (w : World) (include_files : Bool) (peer : Str) (now : ℕ) (written : Write)
    (q : Queue) (pre post : List Entry) (e : Entry)
    → q.message_queue ≡ pre ++ (e ∷ post)
    → queue_matches_target p e peer ≡ true
    → contains e.type text_types ≡ false
    → contains e.type file_types ≡ false
    → ((drain_pass p w include_files peer now written q).0
        ≡ (before p w include_files peer now pre).sent
          + (after p w include_files peer now pre post).sent)
      × ((drain_pass p w include_files peer now written q).1.message_queue
          ≡ (before p w include_files peer now pre).kept
            ++ (after p w include_files peer now pre post).kept)
unfolding drain_pass
drain_pass_drops_unknown p w inc peer now written q pre post e split own t f =
    let without =
      ap (drain_loop p w inc peer now 0 []) split
      ∙ loop_without p w inc peer now pre post e own t f in
    (ap (λ (s : Step). s.sent) without, ap (λ (s : Step). s.kept) without)

accepted_unconfirmed :
    (p : Peers) (w : World) (include_files : Bool) (peer : Str) (now n : ℕ) (c : List Str)
    (e : Entry)
    → queue_matches_target p e peer ≡ true
    → contains e.type text_types ≡ true
    → awaits_receipt now e.queue_sent_at ≡ false
    → (w.send n (forget_sent e)).answer ≡ accepted
    → contains e.msg_id ((w.send n (forget_sent e)).receipts ++ c) ≡ false
    → any (has_id e.msg_id) (drain_entry p w include_files peer now n c e).kept ≡ true
unfolding drain_entry
accepted_unconfirmed p w inc peer now n c e own t due sent early =
    ground (arith, str_beq_iff e.msg_id e.msg_id, own, t, due, sent, early)

-- A text for the peer that is due, since it awaits no receipt or has awaited one for too long, and whose
-- send is accepted with no receipt for it by the end of that send, is in the queue after the pass,
-- whatever receipts come in during the rest of the pass: a receipt for it is lost then.
pub late_receipt_lost :
    (p : Peers) (w : World) (include_files : Bool) (peer : Str) (now : ℕ) (written : Write)
    (q : Queue) (pre post : List Entry) (e : Entry)
    → q.message_queue ≡ pre ++ (e ∷ post)
    → queue_matches_target p e peer ≡ true
    → contains e.type text_types ≡ true
    → awaits_receipt now e.queue_sent_at ≡ false
    → (w.send (length pre) (forget_sent e)).answer ≡ accepted
    → contains e.msg_id (
        (w.send (length pre) (forget_sent e)).receipts
        ++ (before p w include_files peer now pre).confirmed)
      ≡ false
    → any (has_id e.msg_id) (drain_pass p w include_files peer now written q).1.message_queue ≡ true
unfolding drain_pass drain_loop
late_receipt_lost p w inc peer now written q pre post e split own t due sent early =
    let s = before p w inc peer now pre in
    let x = drain_entry p w inc peer now (length pre) s.confirmed e in
    let r = drain_loop p w inc peer now (suc (length pre)) x.confirmed post in
    let kept =
      accepted_unconfirmed p w inc peer now (length pre) s.confirmed e own t due sent early in
    let all : (drain_loop p w inc peer now 0 [] q.message_queue).kept
        ≡ s.kept ++ (x.kept ++ r.kept) =
      ap (λ (l : List Entry). (drain_loop p w inc peer now 0 [] l).kept) split
      ∙ ap (λ (u : Step). u.kept) (drain_loop-append p w inc peer now 0 [] pre (e ∷ post))
      ∙ ap (λ m. s.kept ++ (drain_loop p w inc peer now m s.confirmed (e ∷ post)).kept)
          (omega arith) in
    rw
      (
        all,
        any-append (has_id e.msg_id) s.kept (x.kept ++ r.kept),
        any-append (has_id e.msg_id) x.kept r.kept,
        kept,
      )
      (ground arith)
