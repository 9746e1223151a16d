-- ===== src/Queue/Drain.antt =====
-- `drain_queue`: one pass over the queue for a peer with a link. What a send answers, the receipts that
-- come in while it runs, the clock after it and the files on disk are parameters.
use chatx.Prelude.{
  Write, ℕ, suc, ◌+◌, Bool, false, not, ◌&&◌, ◌||◌, Option, none, some, List, [], ◌∷◌, ◌++◌, ◌==◌,
  nat_eq, ltb, contains, if◌then◌else◌,
}
use chatx.Text.{Str, codes, truthy, or_empty, or_else, str_eq}
use chatx.Aliases.{dest_hash_for}
use chatx.Hash.{is_hub_peer_hash}
use chatx.Queue.{Entry, Queue, Peers, queue_matches_target, save_queue}

abbrev pub queue_receipt_timeout_s : ℕ
queue_receipt_timeout_s = 10

abbrev pub text_types : List Str
text_types = codes "text" ∷ codes "emoji" ∷ []

abbrev pub file_types : List Str
file_types = codes "file" ∷ codes "image" ∷ codes "video" ∷ codes "voice" ∷ []

pub data Answer : Type 0 where
  accepted refused raised : Answer

-- One call of `send_message` or `send_file`.
pub record Outcome : Type 0 where
  pub answer : Answer
  pub receipts : List Str
  pub time : ℕ

-- What the pass depends on: the answer to the n-th entry, and the files on disk.
pub record World : Type 0 where
  pub send : ℕ → Entry → Outcome
  pub exists : Str → Bool

-- What the pass makes of an entry: what it keeps of it, the sends that succeeded, and the ids for
-- which a receipt has come in.
pub record Step : Type 0 where
  pub kept : List Entry
  pub sent : ℕ
  pub confirmed : List Str

abbrev keep_entry : Entry → List Str → Step
keep_entry e confirmed = record { kept = e ∷ []; sent = 0; confirmed = confirmed }

abbrev drop_entry : ℕ → List Str → Step
drop_entry sent confirmed = record { kept = []; sent = sent; confirmed = confirmed }

-- `sent_at and (now - sent_at) < QUEUE_RECEIPT_TIMEOUT_S`
abbrev pub awaits_receipt : ℕ → Option ℕ → Bool
awaits_receipt now none = false
awaits_receipt now (some sent_at) =
    not (sent_at == 0) && ltb now (sent_at + queue_receipt_timeout_s)

abbrev pub forget_sent : Entry → Entry
forget_sent e = elim e.queue_sent_at [
  | none ↦ e
  | some t ↦ if t == 0 then e else record e { queue_sent_at = none }
]

-- After `send_message`.
text_sent : Entry → Outcome → List Str → Step
text_sent e o confirmed = elim o.answer [
  | accepted ↦ if contains e.msg_id confirmed then drop_entry 1 confirmed else record {
    kept = record e { queue_sent_at = some o.time } ∷ [];
    sent = 1;
    confirmed = confirmed;
  }
  | refused ↦ keep_entry e confirmed
  | raised ↦ keep_entry e confirmed
]

drain_text : World → ℕ → ℕ → List Str → Entry → Step
drain_text w now n confirmed e =
    let e' = forget_sent e in
    let o = w.send n e' in
    if awaits_receipt now e.queue_sent_at
    then keep_entry e confirmed
    else text_sent e' o (o.receipts ++ confirmed)

-- After `send_file`.
file_sent : Entry → Outcome → List Str → Step
file_sent e o confirmed = elim o.answer [
  | accepted ↦ drop_entry 1 confirmed
  | refused ↦ keep_entry e confirmed
  | raised ↦ keep_entry e confirmed
]

drain_file : World → Bool → ℕ → List Str → Entry → Step
drain_file w include_files n confirmed e =
    let fp = or_else (or_empty e.file_path) e.content in
    let o = w.send n e in
    if not include_files
    then keep_entry e confirmed
    else if truthy fp && w.exists fp
    then file_sent e o (o.receipts ++ confirmed)
    else drop_entry 0 confirmed

module _ (p : Peers) (w : World) (include_files : Bool) (peer : Str) (now : ℕ) where
  -- The body of the loop.
  unfoldable pub drain_entry : ℕ → List Str → Entry → Step
  unfolding drain_text text_sent drain_file file_sent
  drain_entry n confirmed e =
      if not (queue_matches_target p e peer)
      then keep_entry e confirmed
      else if contains e.type text_types
      then drain_text w now n confirmed e
      else if contains e.type file_types
      then drain_file w include_files n confirmed e
      else drop_entry 0 confirmed

  unfoldable pub drain_loop : ℕ → List Str → List Entry → Step
  drain_loop n confirmed [] = drop_entry 0 confirmed
  drain_loop n confirmed (e ∷ es) =
      let s = drain_entry n confirmed e in
      let r = drain_loop (suc n) s.confirmed es in
      record { kept = s.kept ++ r.kept; sent = s.sent + r.sent; confirmed = r.confirmed }

  -- The loop and what follows it.
  unfoldable pub drain_pass : Write → Queue → ℕ × Queue
  drain_pass written q =
      let s = drain_loop 0 [] q.message_queue in
      (s.sent, save_queue written (record q { message_queue = s.kept }))

-- `linked` says whether `_queue_send_link` finds a link.
unfoldable pub drain_queue : Peers → World → Bool → Str → ℕ → Write → Bool → Queue → ℕ × Queue
drain_queue p w include_files target_hash now written linked q =
    let peer = dest_hash_for p.aliases target_hash in
    if not (truthy peer) || is_hub_peer_hash peer
    then (0, q)
    else if not linked
    then (0, q)
    else drain_pass p w include_files peer now written q
