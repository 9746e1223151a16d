-- ===== src/Book/Pinned.antt =====
-- The address of a saved contact under a pinned LAN scope (`sync_contact_from_discovery` of
-- chatx5/core/contacts.py).
use chatx.Prelude.{
  if◌then◌else◌, ◌==◌, not, ◌||◌, ◌&&◌, some, none, Option, ℕ, ◌≡◌, refl, ◌≢◌, sym, ap, ◌∙◌, true,
  false, [], arith, if_both, nat_eq,
}
use chatx.Text.{Str, codes, truthy, strip, str_eq}
use chatx.Text.Laws.{strip_idem}
use chatx.Scope.{same_lan_scope, should_update_contact_ip}
use chatx.Scope.Pinned.{pinned_scope_kept}
use chatx.Contacts.{
  Contact, normalize_contact, no_colons, separate, drop_serial_primary, assign_transport,
}
use chatx.Contacts.Discovery.{peer_transport_family}
use chatx.Book.{Card, normalize_card}
use chatx.Book.Update.{
  Change, Sighting, refreshed, set_serial, set_lan, set_ip, set_port, set_lan_identity, set_name,
}

-- The address is there and in the scope.
abbrev pub Inside : Str → Card → Type 0
Inside scope c = (strip c.entry.ip ≢ []) × (same_lan_scope (strip c.entry.ip) (strip scope) ≡ true)

abbrev Unmoved : Card → Card → Type 0
Unmoved c d = d.entry.ip ≡ c.entry.ip

Inside-Unmoved : (scope : Str) (c d : Card) → Unmoved c d → Inside scope c → Inside scope d
Inside-Unmoved scope c d e h = (
  λ gone. h.0 (ap strip (sym e) ∙ gone),
  ap (λ ip. same_lan_scope (strip ip) (strip scope)) e ∙ h.1,
)

set_ip-Inside :
    (ip scope : Str) (r : Change)
    → strip scope ≢ []
    → Inside scope r.0
    → Inside scope (set_ip (strip ip) scope r).0
set_ip-Inside ip scope (c, changed) pinned inside =
    let old = strip c.entry.ip in
    let allowed = should_update_contact_ip old (strip ip) scope in
    let still : same_lan_scope (strip old) (strip scope) ≡ true =
      ap (λ s. same_lan_scope s (strip scope)) (strip_idem c.entry.ip) ∙ inside.1 in
    let there : strip old ≢ [] = λ e. inside.0 (sym (strip_idem c.entry.ip) ∙ e) in
    let kept = pinned_scope_kept old (strip ip) scope pinned still there in
    let same = strip_idem ip in
    if_both (λ (r : Change). Inside scope r.0) (truthy (strip ip) && (allowed || not (truthy old)))
      (record c { entry = record c.entry { ip = strip ip } }, true) (c, changed)
      (λ taken. (ground (arith, same, taken), kept (ground (arith, taken, inside.0))))
      (λ left. inside)

set_lan-ip : (h : Str) (r : Change) → Unmoved r.0 (set_lan h r).0
set_lan-ip h (c, changed) = ground arith

set_port-ip : (p : Option ℕ) (r : Change) → Unmoved r.0 (set_port p r).0
set_port-ip none (c, changed) = refl
set_port-ip (some p) (c, changed) = ground arith

set_lan_identity-ip : (h : Str) (r : Change) → Unmoved r.0 (set_lan_identity h r).0
set_lan_identity-ip h (c, changed) = ground arith

set_serial-ip : (h i : Str) (r : Change) → Unmoved r.0 (set_serial h i r).0
set_serial-ip h i (c, changed) = ground arith

set_name-ip : (name : Str) (r : Change) → Unmoved r.0 (set_name name r).0
set_name-ip name (c, changed) = ground arith

normalize_contact-ip : (c : Contact) → (normalize_contact c).ip ≡ c.ip
unfolding normalize_contact separate drop_serial_primary assign_transport
normalize_contact-ip c = ground arith

-- A contact whose stored address is in the pinned scope has an address in that scope after any sighting
-- too: its address may change, but not to one outside the scope, whatever the row of discovery says.
pub refreshed-Inside :
    (seen : Sighting) (scope : Str) (c : Card)
    → strip scope ≢ []
    → Inside scope c
    → Inside scope (refreshed seen scope c).0
unfolding refreshed
refreshed-Inside seen scope c pinned inside =
    let new_hash = no_colons seen.peer.hash in
    let ident = no_colons seen.peer.identity_hash in
    let r : Change = (normalize_card c, false) in
    let at_home : Inside scope r.0 =
      Inside-Unmoved scope c r.0 (normalize_contact-ip c.entry) inside in
    let l = set_lan new_hash r in
    let i = set_ip (strip seen.peer.ip) scope l in
    let p = set_port seen.port i in
    let over_lan : Inside scope i.0 =
      set_ip-Inside seen.peer.ip scope l pinned
        (Inside-Unmoved scope r.0 l.0 (set_lan-ip new_hash r) at_home) in
    let n =
      if peer_transport_family seen.via == codes "serial"
      then set_serial new_hash ident r
      else set_lan_identity ident p in
    let by_transport : Inside scope n.0 =
      if_both (λ (x : Change). Inside scope x.0) (peer_transport_family seen.via == codes "serial")
        (set_serial new_hash ident r) (set_lan_identity ident p)
        (λ serial.
          Inside-Unmoved scope r.0 (set_serial new_hash ident r).0 (set_serial-ip new_hash ident r)
            at_home)
        (λ lan.
          Inside-Unmoved scope p.0 (set_lan_identity ident p).0 (set_lan_identity-ip ident p)
            (Inside-Unmoved scope i.0 p.0 (set_port-ip seen.port i) over_lan)) in
    Inside-Unmoved scope n.0 (set_name seen.peer.name n).0 (set_name-ip seen.peer.name n)
      by_transport
