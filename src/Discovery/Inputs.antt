-- ===== src/Discovery/Inputs.antt =====
-- Announces, beacons and links keep the discovery table well-formed (chatx5/core/discovery.py).
use mathlib.Core.Path.{subst}
use chatx.Discovery.Beacons.{
  Beacon, register_serial_peer_from_beacon, drop_unconfirmed, store_beacon, accept_beacon,
  on_beacon, own_beacon, peer_record_from_beacon, beacon_ip,
}
use chatx.Prelude.{◌≡◌, sym, true, false, not, ◌&&◌, ◌||◌, List, ◌==◌, nat_eq, if_both, option_both}
use chatx.Text.{Str, strip, truthy, or_else, codes, str_eq}
use chatx.Dict.{lookup}
use chatx.Hash.{normalize_hash}
use chatx.Discovery.{storage_key_of, truth, Row, State, Env}
use chatx.Discovery.Invariant.{Locals, locals, Table}
use chatx.Discovery.Preserved.{Kept, kept_pair, if_kept, if_table, remove_peer_entry-Table}
use chatx.Discovery.Storing.{store_peer-WellFormed}
use chatx.Discovery.Rows.{peer_allowed}
use chatx.Discovery.Store.{store_peer, register_link_peer}
use chatx.Discovery.Announce.{Announcement, row_of_announce, on_announce, app_name}

-- The table whose own hashes are the ones that no row has.
abbrev pub both : List Str → Locals
both own = record { own = own; avoid = own }

abbrev pub Own : List Str → State → Type 0
Own own = Table (both own)

module _ (own : List Str) where
  pub own_locals : (s : State) → Own own s → locals s ≡ both own
  own_locals s t = cc (t.ours)

  store_peer-Own :
      (env : Env) (row : Row) (s : State) → Own own s → Kept (both own) (store_peer env row s)
  store_peer-Own env row s t =
      let same = own_locals s t in
      subst (λ l. Kept l (store_peer env row s)) same
        (store_peer-WellFormed env row s (subst (λ l. Table l s) (sym same) t))

  pub register_link_peer-Own :
      (env : Env) (h name via ip : Str) (s : State)
      → Own own s
      → Own own (register_link_peer env h name via ip s)
  unfolding register_link_peer
  register_link_peer-Own env h name via ip s t =
      if_table (both own) (truthy (normalize_hash h) && peer_allowed env s _) _ s
        (store_peer-Own env _ s t).table t

  pub on_announce-Own :
      (env : Env) (a : Announcement) (s : State) → Own own s → Own own (on_announce env a s)
  unfolding on_announce
  on_announce-Own env a s t =
      if_both (Own own) _ s _ (λ refused. t)
        (λ passed.
          option_both (Own own) (row_of_announce env a s) s _ (λ dropped. t)
            (λ row r. (store_peer-Own env row s t).table))

  register_serial-Own :
      (env : Env) (b : Beacon) (name ident : Str) (s : State)
      → Own own s
      → Kept (both own) (register_serial_peer_from_beacon env b name ident s)
  unfolding register_serial_peer_from_beacon
  register_serial-Own env b name ident s t =
      if_kept (both own) _ _ _ (kept_pair (both own) false s t) (store_peer-Own env _ s t)

  drop_unconfirmed-Own : (h : Str) (s : State) → Own own s → Own own (drop_unconfirmed h s)
  drop_unconfirmed-Own h s t =
      option_both (Own own) (lookup (storage_key_of h (codes "serial")) s.peers) s _ (λ free. t)
        (λ e there.
          if_table (both own) (truth e.serial_rns) s _ t
            (remove_peer_entry-Table (both own) (storage_key_of h (codes "serial")) s t))

  store_beacon-Own :
      (env : Env) (b : Beacon) (name : Str) (row : Row) (s : State)
      → Own own s
      → Own own (store_beacon env b name row s)
  store_beacon-Own env b name row s t =
      (register_serial-Own env b name (normalize_hash b.identity_hash) _
        (store_peer-Own env row _ (drop_unconfirmed-Own row.hash s t)).table).table

  accept_beacon-Own :
      (env : Env) (b : Beacon) (source : Str) (row : Row) (s : State)
      → Own own s
      → Kept (both own) (accept_beacon env b source row s)
  unfolding beacon_ip
  accept_beacon-Own env b source row s t =
      option_both (Kept (both own)) (beacon_ip env (strip (or_else b.ip row.ip)) source) _ _
        (λ dropped. kept_pair (both own) false s t)
        (λ ip r.
          if_kept (both own) _ _ _ (kept_pair (both own) true _ (store_beacon-Own env b _ _ s t))
            (kept_pair (both own) false s t))

  pub on_beacon-Own :
      (env : Env) (b : Beacon) (my_dest my_ident source : Str) (s : State)
      → Own own s
      → Kept (both own) (on_beacon env b my_dest my_ident source s)
  unfolding on_beacon
  on_beacon-Own env b my_dest my_ident source s t =
      if_kept (both own) (not s.running || not s.accept_peers || not (b.app == app_name)) (false, s)
        _ (kept_pair (both own) false s t)
        (option_both (Kept (both own)) (peer_record_from_beacon b) _ _
          (λ no_peer. kept_pair (both own) false s t)
          (λ row r.
            if_kept (both own)
              (own_beacon (normalize_hash my_dest) (normalize_hash (or_else my_ident my_dest))
                (normalize_hash b.identity_hash) (normalize_hash row.hash) s)
              _ _ (kept_pair (both own) false s t)
              (accept_beacon-Own env b (strip source) row s t)))
