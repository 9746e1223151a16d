-- ===== src/Offers/Tests.antt =====
-- Runs of the offer table and of the streaming handler, and the theorems at a concrete offer.
use chatx.Prelude.{
  ℕ, ◌≡◌, refl, true, false, Option, none, some, List, [], ◌∷◌, arith, nat_eq, contains,
}
use chatx.Text.{Str, codes, str_beq}
use chatx.Dict.{lookup, IsDict, insert, erase}
use chatx.Offers.{
  Offer, Offers, new_offer, register_offer, pop_offer, peek_offer, set_offer_progress,
}
use chatx.Offers.Calls.{Call, progress, get, peek, cleanup, exec}
use chatx.Offers.Refinement.{replies, spec, replies-exec-spec}
use chatx.Offers.Once.{after, pop_once}
use chatx.Offers.Serve.{handle_lan_transfer, range_start, streamed, raised, watch_round, complete}
use chatx.Offers.Deliver.{handle_lan_transfer_delivers, failed_transfer_reported_complete}
use chatx.Text.Parts.{int}

abbrev id : Str
id = codes "t1"

abbrev token : Str
token = codes "secret"

abbrev photo : Offer
photo =
    new_offer (codes "/srv/a.jpg") (codes "<AB>") (codes "10.0.0.2") none 600 (codes "HTTPS ") token
      100

abbrev table : Offers
table = (id, photo) ∷ []

registered : register_offer id photo [] ≡ table
unfolding register_offer insert
registered = refl

photo_port : photo.port ≡ 8742
photo_port = refl

progress_grows :
    (set_offer_progress id 5 (set_offer_progress id 9 table))
    ≡ (id, record photo { bytes_sent = 9 }) ∷ []
unfolding set_offer_progress lookup str_beq insert
progress_grows = refl

wrong_token : (pop_offer id (codes "guess") 200 table).0 ≡ none
unfolding pop_offer lookup str_beq
wrong_token = refl

popped : (pop_offer id token 200 table) ≡ (some photo, [])
unfolding pop_offer lookup str_beq erase
popped = refl

peeked : (peek_offer id token 200 table).0 ≡ some photo
unfolding peek_offer lookup str_beq
peeked = refl

range_tests : (range_start (codes "bytes=100-") ≡ 100) × (range_start (codes "bytes=x") ≡ 0)
unfolding range_start int
range_tests = (refl, refl)

abbrev files : Str → Option ℕ
files path = some 300000

table-IsDict : IsDict table
unfolding lookup
table-IsDict = (refl, tt)

abbrev story : List (ℕ × Call)
story = (5, peek id token) ∷ (1, progress id 70) ∷ (2, cleanup) ∷ (900, get id) ∷ []

replies-exec-spec_example :
    replies exec 200 table story ≡ replies spec 200 (λ j. lookup j table) story
replies-exec-spec_example = replies-exec-spec 200 table story table-IsDict

pop_once_example : lookup id (after 200 (pop_offer id token 200 table).1 story) ≡ none
pop_once_example =
    pop_once id token 200 table story table-IsDict (rw popped (ground arith))
      (tt, (tt, (tt, (tt, tt))))

handle_lan_transfer_delivers_example :
    (handle_lan_transfer id token 200 205 (codes "bytes=100-") files (λ n. true) 300000 table).0
    ≡ streamed 206 100 300000
unfolding range_start int
handle_lan_transfer_delivers_example =
    handle_lan_transfer_delivers id token 200 205 (codes "bytes=100-") files (λ n. true) 300000
      table photo 300000 peeked (ground arith) refl (λ n. refl) (omega arith)

failed_transfer_reported_complete_example :
    let r = handle_lan_transfer id token 200 205 [] files (λ n. false) 9 table in
    (r.0 ≡ raised 0 0) × ((watch_round [] id 210 r.1).0 ≡ complete)
unfolding range_start contains
failed_transfer_reported_complete_example =
    failed_transfer_reported_complete id token 200 205 210 [] files (λ n. false) 8 table photo
      300000 [] peeked (ground arith) refl (omega arith) refl refl
