-- ===== src/Offers/Deliver.antt =====
-- The handler that streams an offered file: it delivers the whole file, and uses the offer up.
use chatx.Prelude.{
  ℕ, zero, suc, ◌+◌, ◌-◌, ◌<◌, ◌≡◌, refl, ◌∙◌, ◌≢◌, max, min, Bool, true, false, Option, none, some,
  inl, inr, List, [], arith, ◌==◌, contains, Bool-cases, nat_eq, if◌then◌else◌,
}
use chatx.Text.{Str, truthy, str_eq, str_beq_iff}
use chatx.Dict.{lookup}
use chatx.Dict.Laws.{lookup-insert, lookup-erase}
use chatx.Offers.{
  Offer, Offers, progressed, peek_offer, pop_offer, set_offer_progress, get_offer_state,
}
use chatx.Offers.Serve.{
  send_chunks, chunk_size, range_start, serve_file, handle_lan_transfer, streamed, raised,
  watch_round, complete,
}

-- The table has an offer with this token under the id.
abbrev Has : Str → Str → Offers → Type 0
Has id token d = (o : Offer) × (lookup id d ≡ some o) × ((o.token == token) ≡ true)

Has-progress :
    (id token : Str) (n : ℕ) (d : Offers)
    → Has id token d
    → Has id token (set_offer_progress id n d)
unfolding set_offer_progress
Has-progress id token n d (o, e, same) = (
  progressed n o,
  rw (e, set_offer_progress)
      (ground (arith, lookup-insert id id (progressed n o) d, str_beq_iff id id)),
  same,
)

Has-peek :
    (id token : Str) (now : ℕ) (d : Offers) (o : Offer)
    → (peek_offer id token now d).0 ≡ some o
    → Has id token (peek_offer id token now d).1
unfolding peek_offer
Has-peek id token now d o h = (o, ground arith, ground arith)

send_chunks-Has :
    (fuel : ℕ) (writes : ℕ → Bool) (id token : Str) (total sent : ℕ) (d : Offers)
    → Has id token d
    → Has id token (send_chunks fuel writes id total sent d).offers
unfolding send_chunks
send_chunks-Has zero writes id token total sent d h = h
send_chunks-Has (suc fuel) writes id token total sent d h =
    let chunk = min chunk_size (total - sent) in
    elim (Bool-cases (chunk == 0)) [
      | inl done ↦ rw done h
      | inr more ↦ elim (Bool-cases (writes sent)) [
        | inl good ↦
            rw (more, good)
              (send_chunks-Has fuel writes id token total (sent + chunk)
                (set_offer_progress id (sent + chunk) d) (Has-progress id token (sent + chunk) d h))
        | inr bad ↦ rw (more, bad) h
      ]
    ]

pop-Has :
    (id token : Str) (now : ℕ) (d : Offers)
    → Has id token d
    → lookup id (pop_offer id token now d).1 ≡ none
unfolding pop_offer
pop-Has id token now d (o, e, same) = ground (arith, lookup-erase id id d, str_beq_iff id id)

-- With every write accepted and fuel for the bytes that are left, the loop ends at the end of the file.
send_chunks_all :
    (fuel : ℕ) (writes : ℕ → Bool) (id : Str) (total sent : ℕ) (d : Offers)
    → ((n : ℕ) → writes n ≡ true)
    → total - sent < fuel
    → ((send_chunks fuel writes id total sent d).finished ≡ true)
      × ((send_chunks fuel writes id total sent d).offset ≡ max sent total)
unfolding send_chunks
send_chunks_all zero writes id total sent d good h = absurd (omega arith)
send_chunks_all (suc fuel) writes id total sent d good h =
    let chunk = min chunk_size (total - sent) in
    let ih =
      send_chunks_all fuel writes id total (sent + chunk) (set_offer_progress id (sent + chunk) d)
        good in
    elim (Bool-cases (chunk == 0)) [
      | inl done ↦ rw done (refl, ground arith)
      | inr more ↦
          rw (more, good sent) ((ih (ground arith)).0, (ih (ground arith)).1 ∙ ground arith)
    ]

module _ (id token : Str) (later : ℕ) (range_hdr : Str) (writes : ℕ → Bool) (fuel : ℕ) where
  serve_file-gone :
      (size : Option ℕ) (d : Offers)
      → Has id token d
      → lookup id (serve_file id token later range_hdr writes fuel size d).1 ≡ none
  unfolding serve_file
  serve_file-gone none d h = pop-Has id token later d h
  serve_file-gone (some total) d h =
      let s = send_chunks fuel writes id total (range_start range_hdr) d in
      ground (
        arith,
        pop-Has id token later s.offers
            (send_chunks-Has fuel writes id token total (range_start range_hdr) d h),
      )

-- A request with the token of a live offer uses the offer up, whether the file is missing, is sent to
-- its end or breaks off.
pub handle_lan_transfer-consumes :
    (id token : Str) (now later : ℕ) (range_hdr : Str) (files : Str → Option ℕ) (writes : ℕ → Bool)
    (fuel : ℕ) (d : Offers) (o : Offer)
    → (peek_offer id token now d).0 ≡ some o
    → lookup id (handle_lan_transfer id token now later range_hdr files writes fuel d).1 ≡ none
unfolding handle_lan_transfer
handle_lan_transfer-consumes id token now later range_hdr files writes fuel d o h =
    rw (h, handle_lan_transfer)
      (serve_file-gone id token later range_hdr writes fuel
        (if truthy o.path then files o.path else none) (peek_offer id token now d).1
        (Has-peek id token now d o h))

-- With the offer live and its file there, the handler goes on to stream it.
handle_lan_transfer-serves :
    (id token : Str) (now later : ℕ) (range_hdr : Str) (files : Str → Option ℕ) (writes : ℕ → Bool)
    (fuel : ℕ) (d : Offers) (o : Offer) (total : ℕ)
    → (peek_offer id token now d).0 ≡ some o
    → o.path ≢ []
    → files o.path ≡ some total
    → handle_lan_transfer id token now later range_hdr files writes fuel d
      ≡ serve_file id token later range_hdr writes fuel (some total) (peek_offer id token now d).1
unfolding handle_lan_transfer
handle_lan_transfer-serves id token now later range_hdr files writes fuel d o total h p f =
    let here : (if truthy o.path then files o.path else none) ≡ some total = ground arith in
    rw (h, handle_lan_transfer) (rw here)

-- The file of a live offer is delivered whole: if it is there, no write fails and the loop has a round
-- for each byte that is left and one more, the response is a stream that ends at the last byte (or
-- where the requested range starts, if that is behind the end).
pub handle_lan_transfer_delivers :
    (id token : Str) (now later : ℕ) (range_hdr : Str) (files : Str → Option ℕ) (writes : ℕ → Bool)
    (fuel : ℕ) (d : Offers) (o : Offer) (total : ℕ)
    → (peek_offer id token now d).0 ≡ some o
    → o.path ≢ []
    → files o.path ≡ some total
    → ((n : ℕ) → writes n ≡ true)
    → total - range_start range_hdr < fuel
    → (handle_lan_transfer id token now later range_hdr files writes fuel d).0
      ≡ streamed
          (if range_start range_hdr == 0 then 200 else 206)
          (range_start range_hdr)
          (max (range_start range_hdr) total)
unfolding serve_file
handle_lan_transfer_delivers id token now later range_hdr files writes fuel d o total h p f good
      enough =
    let all =
      send_chunks_all fuel writes id total (range_start range_hdr) (peek_offer id token now d).1
        good enough in
    rw (handle_lan_transfer-serves id token now later range_hdr files writes fuel d o total h p f)
      (ground (arith, all.0, all.1))

-- A write that fails at the first byte ends the stream by an error, and the sender's watch, which has
-- not cancelled the transfer, then reports it as complete.
pub failed_transfer_reported_complete :
    (id token : Str) (now later watched : ℕ) (range_hdr : Str) (files : Str → Option ℕ)
    (writes : ℕ → Bool) (fuel : ℕ) (d : Offers) (o : Offer) (total : ℕ)
    (cancelled_transfers : List Str)
    → (peek_offer id token now d).0 ≡ some o
    → o.path ≢ []
    → files o.path ≡ some total
    → range_start range_hdr < total
    → writes (range_start range_hdr) ≡ false
    → contains id cancelled_transfers ≡ false
    → let r = handle_lan_transfer id token now later range_hdr files writes (suc fuel) d in
      (r.0 ≡ raised (range_start range_hdr) (range_start range_hdr))
      × ((watch_round cancelled_transfers id watched r.1).0 ≡ complete)
unfolding serve_file send_chunks watch_round get_offer_state
failed_transfer_reported_complete id token now later watched range_hdr files writes fuel d o total
      cs h p f lt bad c =
    (
      rw
          (handle_lan_transfer-serves id token now later range_hdr files writes (suc fuel) d o total
            h p f)
          (ground arith),
      ground (
        arith,
        handle_lan_transfer-consumes id token now later range_hdr files writes (suc fuel) d o h,
      ),
    )
