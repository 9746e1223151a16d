-- ===== src/Scope/Pinned.antt =====
-- A pinned LAN scope is not left: what `should_update_contact_ip` allows.
use chatx.Prelude.{◌≡◌, ◌≢◌, true, [], arith}
use chatx.Text.{Str, strip}
use chatx.Scope.{same_lan_scope, should_update_contact_ip}

-- Under a pinned scope, a contact that is in the scope is still in it after an update.
pub pinned_scope_kept :
    (old new scope : Str)
    → strip scope ≢ []
    → same_lan_scope (strip old) (strip scope) ≡ true
    → strip old ≢ []
    → should_update_contact_ip old new scope ≡ true
    → same_lan_scope (strip new) (strip scope) ≡ true
unfolding should_update_contact_ip
pinned_scope_kept old new scope pinned inside has h = ground arith
