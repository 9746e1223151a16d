-- ===== src/Offers.antt =====
-- One-time offers of files over LAN HTTP (chatx5/core/lan_transfer.py). The table `_offers` is passed
-- from call to call. Times and sizes are natural numbers, the clock and the random token arguments;
-- each function holds the lock for all of its work on the table, so a call is one step.
pub mod Calls
pub mod Once
pub mod Refinement
pub mod Serve
pub mod Deliver
mod Tests
use chatx.Prelude.{
  ℕ, ◌+◌, max, Bool, true, false, not, Option, none, some, [], ◌∷◌, ◌==◌, contains, nat_eq, ltb,
  if◌then◌else◌,
}
use chatx.Text.{Str, codes, or_else, strip, lower, str_eq}
use chatx.Dict.{Dict, lookup, insert, erase, erase_all, keys_with}
use chatx.Hash.{normalize_hash}

pub record Offer : Type 0 where
  pub path : Str
  pub token : Str
  pub peer : Str
  pub host : Str
  pub port : ℕ
  pub scheme : Str
  pub expires : ℕ
  pub bytes_sent : ℕ

abbrev pub Offers : Type 0
Offers = Dict Offer

-- `int(port or 8742)`
abbrev pub port_or_default : Option ℕ → ℕ
port_or_default none = 8742
port_or_default (some p) = if p == 0 then 8742 else p

abbrev pub clean_scheme : Str → Str
clean_scheme scheme =
    let s = lower (strip (or_else scheme (codes "http"))) in
    if s == codes "http" then s else if s == codes "https" then s else codes "http"

-- What `register_offer` stores.
abbrev pub new_offer : Str → Str → Str → Option ℕ → ℕ → Str → Str → ℕ → Offer
new_offer file_path peer_hash host port ttl scheme token now = record {
  path = file_path;
  token = token;
  peer = normalize_hash peer_hash;
  host = host;
  port = port_or_default port;
  scheme = clean_scheme scheme;
  expires = now + ttl;
  bytes_sent = 0;
}

unfoldable pub register_offer : Str → Offer → Offers → Offers
register_offer transfer_id offer offers = insert transfer_id offer offers

abbrev pub progressed : ℕ → Offer → Offer
progressed bytes_sent o = record o { bytes_sent = max bytes_sent o.bytes_sent }

unfoldable pub set_offer_progress : Str → ℕ → Offers → Offers
set_offer_progress transfer_id bytes_sent offers = elim (lookup transfer_id offers) [
  | none ↦ offers
  | some o ↦ insert transfer_id (progressed bytes_sent o) offers
]

unfoldable pub get_offer_state : Str → ℕ → Offers → Option Offer × Offers
get_offer_state transfer_id now offers = elim (lookup transfer_id offers) [
  | none ↦ (none, offers)
  | some o ↦ if ltb o.expires now then (none, erase transfer_id offers) else (some o, offers)
]

unfoldable pub peek_offer : Str → Str → ℕ → Offers → Option Offer × Offers
peek_offer transfer_id token now offers = elim (lookup transfer_id offers) [
  | none ↦ (none, offers)
  | some o ↦
      if not (o.token == token)
      then (none, offers)
      else if ltb o.expires now
      then (none, erase transfer_id offers)
      else (some o, offers)
]

unfoldable pub pop_offer : Str → Str → ℕ → Offers → Option Offer × Offers
pop_offer transfer_id token now offers = elim (lookup transfer_id offers) [
  | none ↦ (none, offers)
  | some o ↦
      if not (o.token == token)
      then (none, offers)
      else if ltb o.expires now
      then (none, erase transfer_id offers)
      else (some o, erase transfer_id offers)
]

unfoldable pub remove_offer : Str → Offers → Offers
remove_offer transfer_id offers = erase transfer_id offers

abbrev pub is_expired : ℕ → Str → Offer → Bool
is_expired now tid offer = ltb offer.expires now

unfoldable pub cleanup_expired : ℕ → Offers → Offers
cleanup_expired now offers = erase_all (keys_with (is_expired now) offers) offers
