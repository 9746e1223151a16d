-- ===== src/Discovery/Tests.antt =====
-- Runs of the discovery table, and the theorems at concrete rows.
use chatx.Discovery.Removal.{clear_peers}
use chatx.Prelude.{
  inl, ◌-◌, ◌≤◌, ◌≡◌, refl, ap, ◌∙◌, ◌⊎◌, inr, true, false, not, ◌||◌, Option, none, some, List, [],
  ◌∷◌, arith, ◌==◌, nat_eq, contains, keep, All, if◌then◌else◌,
}
use chatx.Text.{Str, codes, truthy, strip, lower, remove_char, str_beq, str_eq, str_beq}
use chatx.Dict.{lookup, insert, erase}
use chatx.Dict.Laws.{unless, holds}
use chatx.Hash.{normalize_hash}
use chatx.Scope.{peer_in_scope, same_lan_scope}
use chatx.Discovery.{
  Row, index_peer, peer_storage_key, State, Env, no_row, is_serial, has_peer_hash,
  peer_keys_for_hash, scan, storage_key_of, scope_ip, index_hashes, index_hashes_for_peer, before,
  index_hash, is_local_hash, pop_peer_key, unindex_peer,
}
use chatx.Discovery.Invariant.{WellFormed, RowOk, locals, foreign, add-Table}
use chatx.Discovery.Reachable.{Call, switched, cleared, run, new_discovery, run-WellFormed}
use chatx.Discovery.Found.{peer_keys_for_hash-scan, peer_keys_for_hash_sound}
use chatx.Discovery.Purges.{purges_count, purge_out_of_scope_lem, purge_stale_probes-alive, Counted}
use chatx.Discovery.Choice.{
  prefer_peer-viable, prefers_first_antisym, update_peer_probe-other_transport,
}
use chatx.Discovery.Scoped.{classify_lem, StoredIn}
use chatx.Discovery.Accepted.{refused, store_peer-StoredIn, store_peer_rejects}
use chatx.Discovery.Listed.{get_peers_lem, DistinctIps}
use chatx.Discovery.Rows.{sanitize_peer_scope, peer_viable, prefer_peer, prefers_first, peer_rank}
use chatx.Discovery.Purge.{
  purge_ipless_non_serial, purge_misclassified_serial, purge_offline_serial_peers, purge_hashes,
  purge_out_of_scope, purge_stale_probes,
}
use chatx.Discovery.{before, index_hash, index_hashes, index_hashes_for_peer}
use chatx.Discovery.Rows.{attach_peer_ip, ip_source}
use chatx.Dict.{erase}
use chatx.Discovery.Store.{
  evict_superseded_peers, evict_loop, merge_ip, merge_names, store_allowed, superseded,
}
use chatx.Discovery.Probing.{change_row, change_rows, for_hash, reset_peer_probe_state}
use chatx.Discovery.Probing.{update_peer_probe}
use chatx.Discovery.Store.{store_peer, prepared, evict_superseded_peers}
use chatx.Discovery.Announce.{Announcement, classify, app_name}
use chatx.Discovery.View.{get_peers}
use chatx.Text.Parts.{split, int}

abbrev env : Env
env = record {
  serial_active = true;
  discovery_scope_ip = codes "10.0.0.5";
  now = 1000;
  packet_family = λ h. some (codes "udp");
}

abbrev lan_announce : Announcement
lan_announce = record {
  destination_hash = codes "AA";
  identity_hash = codes "I1";
  public_key = [];
  app = app_name;
  name = codes "ann";
  ip = codes "10.0.0.7";
  receiving_family = none;
}

abbrev calls : List (Env × Call)
calls =
    (env, Call.starting)
    ∷ (env, Call.enabling true)
    ∷ (env, Call.announce lan_announce)
    ∷ (env, Call.link_peer (codes "bb") [] (codes "serial") [])
    ∷ []

run-WellFormed_example : WellFormed (run calls new_discovery)
run-WellFormed_example = run-WellFormed calls

-- A table with one row.
abbrev lan_key : Str
lan_key = codes "aa:lan"

abbrev ann : Row
ann = record no_row {
  hash = codes "aa";
  name = codes "ann";
  via = codes "rns";
  ip = codes "10.0.0.7";
  last_seen = 990;
}

abbrev empty : State
empty = record new_discovery { running = true; accept_peers = true }

abbrev one : State
one = index_peer lan_key ann (record empty { peers = insert lan_key ann [] })

empty_ok : WellFormed empty
unfolding clear_peers
empty_ok = switched [] true true new_discovery (cleared [] new_discovery refl)

keyed_ann : lan_key ≡ peer_storage_key ann
unfolding storage_key_of normalize_hash lower strip remove_char str_beq contains
keyed_ann = refl

normal_ann : normalize_hash ann.hash ≡ ann.hash
unfolding normalize_hash lower strip remove_char
normal_ann = refl

foreign_ann : contains ann.hash (locals empty).avoid ≡ false
unfolding contains
foreign_ann = refl

foreign_id : foreign (locals empty).avoid ann.identity_hash ≡ true
unfolding normalize_hash lower strip remove_char
foreign_id = refl

ann_ok : RowOk (locals empty) lan_key ann
ann_ok = record {
  keyed = keyed_ann;
  normal = normal_ann;
  has_hash = refl;
  foreign_hash = foreign_ann;
  foreign_identity = foreign_id;
}

one_ok : WellFormed one
unfolding index_peer lookup
one_ok = add-Table (locals empty) empty empty_ok lan_key ann refl ann_ok

at_key : lookup lan_key one.peers ≡ some ann
unfolding lookup index_peer insert str_beq
at_key = refl

only : (j : Str) (row : Row) → lookup j one.peers ≡ some row → row ≡ ann
unfolding lookup insert index_peer
only j row at = ground arith

normal_aa : ann.hash ≡ normalize_hash (codes "AA")
unfolding normalize_hash lower strip remove_char
normal_aa = refl

no_identity :
    (j : Str) (row : Row)
    → lookup j one.peers ≡ some row
    → normalize_hash row.identity_hash ≡ normalize_hash (codes "AA")
    → row.hash ≡ normalize_hash (codes "AA")
no_identity j row at h = ap (λ (r : Row). r.hash) (only j row at) ∙ normal_aa

peer_keys_for_hash-scan_example :
    contains lan_key (peer_keys_for_hash (codes "AA") one).0
    ≡ contains lan_key (scan (normalize_hash (codes "AA")) one)
peer_keys_for_hash-scan_example =
    peer_keys_for_hash-scan (codes "AA") lan_key one one_ok no_identity

found_there : contains lan_key (peer_keys_for_hash (codes "AA") one).0 ≡ true
unfolding contains peer_keys_for_hash normalize_hash lower strip remove_char lookup index_peer
    insert str_beq index_hashes index_hashes_for_peer before index_hash
found_there = refl

peer_keys_for_hash_sound_example :
    (row : Row) × (lookup lan_key one.peers ≡ some row)
    × ((row.hash ≡ normalize_hash (codes "AA"))
        ⊎ (normalize_hash row.identity_hash ≡ normalize_hash (codes "AA")))
peer_keys_for_hash_sound_example =
    peer_keys_for_hash_sound (codes "AA") lan_key one one_ok found_there

purges_count_example :
    Counted one (purge_ipless_non_serial one)
    × Counted one (purge_misclassified_serial env one)
    × Counted one (purge_offline_serial_peers env one)
    × Counted one (purge_hashes (codes "aa" ∷ []) one)
purges_count_example = purges_count env (codes "aa" ∷ []) one one_ok

abbrev far : Str
far = codes " 10.0.1.5 "

far_given : truthy (strip far) ≡ true
unfolding strip
far_given = refl

purge_out_of_scope_lem_example : lookup lan_key (purge_out_of_scope far one).1.peers ≡ (
    if is_serial ann || not (truthy (strip ann.ip)) || same_lan_scope (strip ann.ip) (strip far)
    then some ann
    else none)
purge_out_of_scope_lem_example = purge_out_of_scope_lem far one lan_key ann far_given at_key

-- The row does not share the scope, so it goes.
gone : lookup lan_key (purge_out_of_scope far one).1.peers ≡ none
unfolding lookup purge_out_of_scope strip index_peer insert str_beq same_lan_scope split int
    pop_peer_key unindex_peer erase
gone = refl

purge_stale_probes-alive_example :
    lookup lan_key (purge_stale_probes env 10000 30 5 one).1.peers ≡ some ann
purge_stale_probes-alive_example =
    purge_stale_probes-alive env 10000 30 5 one lan_key ann one_ok at_key (inr (omega arith))

abbrev near : Option Str
near = some (codes "10.0.0.5")

prefer_peer-viable_example :
    peer_viable env near (prefer_peer env near no_row ann)
    ≡ (peer_viable env near no_row || peer_viable env near ann)
prefer_peer-viable_example = prefer_peer-viable env near no_row ann

prefers_first_antisym_example :
    (prefers_first env near ann no_row ≡ not (prefers_first env near no_row ann))
    ⊎ ((peer_viable env near no_row ≡ peer_viable env near ann)
        × (no_row.rtt_avg_ms ≡ ann.rtt_avg_ms)
        × (peer_rank no_row ≡ peer_rank ann)
        × (no_row.last_seen ≡ ann.last_seen))
prefers_first_antisym_example = prefers_first_antisym env near no_row ann

usb : lower (strip (codes "usb")) ≡ codes "usb"
unfolding lower strip
usb = refl

update_peer_probe-other_transport_example :
    lookup lan_key (update_peer_probe env (codes "aa") (some 900) true (codes "usb") one).peers
    ≡ some ann
unfolding str_beq strip
update_peer_probe-other_transport_example =
    update_peer_probe-other_transport env (codes "aa") (some 900) true (codes "usb") one lan_key ann
      at_key (inl (inr usb, refl))

taken : classify env (codes "udp") (codes "10.0.0.7") ≡ some (codes "rns", codes "10.0.0.7")
unfolding classify str_beq contains strip peer_in_scope same_lan_scope split
taken = refl

classify_lem_example :
    ((codes "rns" ≡ codes "serial") × (codes "10.0.0.7" ≡ []) × (env.serial_active ≡ true))
    ⊎ ((codes "rns" ≡ codes "rns")
        × (codes "10.0.0.7" ≡ codes "10.0.0.7")
        × (truthy (codes "10.0.0.7") ≡ true)
        × ((truthy (scope_ip env) ≡ false)
            ⊎ (peer_in_scope (codes "10.0.0.7") (scope_ip env) ≡ true)))
classify_lem_example =
    classify_lem env (codes "udp") (codes "10.0.0.7") (codes "rns") (codes "10.0.0.7") taken

lan_row : is_serial ann ≡ false
unfolding str_beq strip
lan_row = refl

scoped : truthy (scope_ip env) ≡ true
unfolding strip
scoped = refl

stores : (store_peer env ann empty).0 ≡ true
unfolding store_peer normalize_hash lower strip remove_char is_local_hash contains
    sanitize_peer_scope str_beq peer_in_scope same_lan_scope split storage_key_of
    evict_superseded_peers lookup
stores = refl

store_peer-StoredIn_example :
    StoredIn env (storage_key_of ann.hash ann.via) (store_peer env ann empty).1
store_peer-StoredIn_example = store_peer-StoredIn env ann empty lan_row scoped stores

abbrev moved : Row
moved = record ann { ip = codes "10.0.1.7" }

not_refused : refused moved one ≡ false
unfolding normalize_hash lower strip remove_char is_local_hash contains index_peer
not_refused = refl

rejected_row : sanitize_peer_scope env one (prepared (normalize_hash moved.hash) moved) ≡ none
unfolding sanitize_peer_scope str_beq strip peer_in_scope same_lan_scope split int
rejected_row = refl

store_peer_rejects_example :
    ((store_peer env moved one).0 ≡ false)
    × (lookup lan_key (store_peer env moved one).1.peers
        ≡ unless
            (holds
              (λ j r. normalize_hash r.hash == normalize_hash moved.hash)
              lan_key
              (lookup lan_key one.peers))
            (lookup lan_key one.peers))
store_peer_rejects_example =
    store_peer_rejects env moved one lan_key one_ok not_refused rejected_row

get_peers_lem_example :
    DistinctIps (get_peers env near one).0
    × All
        (λ row. (peer_viable env near row ≡ true) × (env.now - row.last_seen ≤ 300))
        (get_peers env near one).0
get_peers_lem_example = get_peers_lem env near one one_ok

-- A second beacon of a row brings its identity into the row, and not into the index: the row is not
-- found by the identity that it has.
abbrev unscoped : Env
unscoped = record env { discovery_scope_ip = [] }

abbrev identified : State
identified = (store_peer unscoped (record ann { identity_hash = codes "i1" }) one).1

identity_not_indexed :
    (lookup lan_key identified.peers
      ≡ some (record ann { identity_hash = codes "i1"; last_probe_ok = 990 }))
    × ((has_peer_hash (codes "i1") identified).0 ≡ false)
unfolding lookup store_peer normalize_hash lower strip remove_char is_local_hash contains index_peer
    sanitize_peer_scope str_beq peer_in_scope same_lan_scope split storage_key_of
    evict_superseded_peers insert erase change_row change_rows for_hash reset_peer_probe_state
    attach_peer_ip ip_source evict_loop merge_ip merge_names store_allowed superseded before
    index_hash index_hashes index_hashes_for_peer peer_keys_for_hash has_peer_hash keep
identity_not_indexed = (refl, refl)
