-- ===== src/Offers/Serve.antt =====
-- The handler that streams an offered file (`handle_lan_transfer` of chatx5/web/rns_lifecycle.py) and
-- one round of the sender's watch over it (`_watch_lan_http_send` of chatx5/core/messaging/transfer.py).
-- The file's size, the writes that reach the receiver, and the clock are parameters.
use chatx.Prelude.{
  ℕ, zero, suc, ◌+◌, ◌-◌, ◌*◌, min, Bool, true, false, Option, none, some, List, [], ◌∷◌, ◌==◌,
  contains, nat_eq, drop, if◌then◌else◌,
}
use chatx.Prelude.Int.{ℤ, pos, negsuc}
use chatx.Text.{Str, codes, truthy, starts_with, str_eq}
use chatx.Text.Parts.{int}
use chatx.Offers.{
  Offer, Offers, peek_offer, pop_offer, set_offer_progress, get_offer_state, remove_offer,
}

-- `part.split("-", 1)[0]`
up_to : ℕ → Str → Str
up_to sep [] = []
up_to sep (c ∷ s) = let rest = up_to sep s in if c == sep then [] else c ∷ rest

-- `max(0, int(part))`, and 0 on a ValueError
abbrev first_byte : Option ℤ → ℕ
first_byte none = 0
first_byte (some (pos n)) = n
first_byte (some (negsuc n)) = 0

-- The first byte that the `Range` header asks for.
unfoldable pub range_start : Str → ℕ
unfolding up_to starts_with
range_start range_hdr =
    if starts_with range_hdr (codes "bytes=")
    then first_byte (int (up_to b'-' (drop 6 range_hdr)))
    else 0

abbrev pub chunk_size : ℕ
chunk_size = 256 * 1024

-- The loop over `src.read(256 * 1024)`. `writes n` says whether the write at offset `n` succeeds. The
-- result: whether all was written, the offset reached, the table, and whether the fuel sufficed.
pub record Sent : Type 0 where
  pub finished : Bool
  pub failed : Bool
  pub offset : ℕ
  pub offers : Offers

unfoldable pub send_chunks : ℕ → (ℕ → Bool) → Str → ℕ → ℕ → Offers → Sent
send_chunks zero writes id total sent d = record {
  finished = false;
  failed = false;
  offset = sent;
  offers = d;
}
send_chunks (suc fuel) writes id total sent d =
    let chunk = min chunk_size (total - sent) in
    let rest =
      send_chunks fuel writes id total (sent + chunk) (set_offer_progress id (sent + chunk) d) in
    let stop : Sent = record { finished = true; failed = false; offset = sent; offers = d } in
    let broken : Sent = record { finished = false; failed = true; offset = sent; offers = d } in
    if chunk == 0 then stop else if writes sent then rest else broken

pub data Response : Type 0 where
  not_found : Response
  file_missing : Response
  streamed : (status start offset : ℕ) → Response
  raised : (start offset : ℕ) → Response

-- After the loop: both ways out pop the offer.
abbrev pub close : Str → Str → ℕ → ℕ → Sent → Response × Offers
close id token later start s =
    let d = (pop_offer id token later s.offers).1 in
    if s.finished
    then (streamed (if start == 0 then 200 else 206) start s.offset, d)
    else (raised start s.offset, d)

unfoldable pub serve_file :
    Str → Str → ℕ → Str → (ℕ → Bool) → ℕ → Option ℕ → Offers → Response × Offers
serve_file id token later range_hdr writes fuel none d =
    (file_missing, (pop_offer id token later d).1)
serve_file id token later range_hdr writes fuel (some total) d =
    let start = range_start range_hdr in
    close id token later start (send_chunks fuel writes id total start d)

-- `files path` is the size of the file at a path, if it is a file.
unfoldable pub handle_lan_transfer :
    Str → Str → ℕ → ℕ → Str → (Str → Option ℕ) → (ℕ → Bool) → ℕ → Offers → Response × Offers
handle_lan_transfer id token now later range_hdr files writes fuel d =
    let r = peek_offer id token now d in
    elim r.0 [
      | none ↦ (not_found, r.1)
      | some offer ↦
          serve_file id token later range_hdr writes fuel
            (if truthy offer.path then files offer.path else none) r.1
    ]

pub data Progress : Type 0 where
  cancelled complete : Progress
  sending : ℕ → Progress

abbrev report : Option Offer → Progress
report none = complete
report (some o) = sending o.bytes_sent

-- One round of the watch: what it reports, and the table after it. The percentage and the speed that
-- it works out of the bytes sent are left out.
unfoldable pub watch_round : List Str → Str → ℕ → Offers → Progress × Offers
unfolding contains
watch_round cancelled_transfers id now d =
    let r = get_offer_state id now d in
    if contains id cancelled_transfers then (cancelled, remove_offer id d) else (report r.0, r.1)
