-- ===== src/Discovery/Shown.antt =====
-- What the two loops of `get_peers` (chatx5/core/discovery.py) collect: rows of the table, the serial ones
-- without an address, and the LAN ones under theirs.
use mathlib.Core.Path.{subst}
use chatx.Prelude.{
  ◌≡◌, refl, sym, inl, inr, Bool, true, false, not, Option, some, List, [], ◌∷◌, arith,
  if◌then◌else◌, Bool-cases, ◌==◌, nat_eq, All, All-append, if_both, option_both,
}
use chatx.Text.{Str, truthy, strip, str_eq, str_beq, str_beq_iff}
use chatx.Text.Laws.{str_beq_refl}
use chatx.Dict.{Dict, lookup, insert, values, IsDict}
use chatx.Dict.Laws.{insert-IsDict}
use chatx.Discovery.{Row, Env, is_serial}
use chatx.Discovery.Rows.{prefer_peer, prefers_first, same_ip_preferred, peer_dedup_key}
use chatx.Discovery.View.{
  same_key, dedupe_row, dedupe_rows, Shown, show_serial, show_lan, show_row, show_rows,
}

module _ (P : Str × Row → Type 0) where
  All-insert : (k : Str) (v : Row) (d : Dict Row) → P (k, v) → All P d → All P (insert k v d)
  unfolding insert
  All-insert k v [] p h = (p, tt)
  All-insert k v ((j, w) ∷ d) p h =
      if_both (All P) (j == k) ((j, v) ∷ d) ((j, w) ∷ insert k v d)
        (λ same. (subst (λ i. P (i, v)) (sym ((str_beq_iff j k).0 same)) p, h.1))
        (λ other. (h.0, All-insert k v d p h.1))

  All-lookup : (k : Str) (v : Row) (d : Dict Row) → All P d → lookup k d ≡ some v → P (k, v)
  unfolding lookup
  All-lookup k v [] h at = absurd (ground arith)
  All-lookup k v ((j, w) ∷ d) h at = elim (Bool-cases (str_beq j k)) [
    | inl same ↦
        let e : w ≡ v = ground arith in
        subst (λ x. P (k, x)) e (subst (λ i. P (i, w)) ((str_beq_iff j k).0 same) h.0)
    | inr other ↦ All-lookup k v d h.1 (ground arith)
  ]

  pub All-table :
      (d : Dict Row)
      → IsDict d
      → ((k : Str) (row : Row) → lookup k d ≡ some row → P (k, row))
      → All P d
  unfolding lookup
  All-table [] h f = tt
  All-table ((k, row) ∷ d) h f = (
    f k row (ground (arith, str_beq_refl k)),
    All-table d h.1 (λ j r at. f j r (ground (arith, h.0, str_beq_iff k j))),
  )

-- A choice between two rows has every property that both have.
module _ (Q : Row → Type 0) (env : Env) (scope : Option Str) where
  if_Q : (b : Bool) (x y : Row) → Q x → Q y → Q (if b then x else y)
  if_Q true x y p q = p
  if_Q false x y p q = q

  prefer_peer-Q : (a b : Row) → Q a → Q b → Q (prefer_peer env scope a b)
  prefer_peer-Q a b p q = if_Q (prefers_first env scope a b) a b p q

  pub same_ip_preferred-Q : (a b : Row) → Q a → Q b → Q (same_ip_preferred env scope a b)
  unfolding same_ip_preferred
  same_ip_preferred-Q a b p q = search (if_Q) depth 12

-- A property of rows that stays when the address is dropped.
module _ (Q : Row → Type 0) (bare : (row : Row) → Q row → Q (record row { ip = [] })) (env : Env)
    (scope : Option Str) where
  abbrev pub OfRow : Str × Row → Type 0
  OfRow (k, row) = Q row

  if_All : (b : Bool) (x y : Dict Row) → All OfRow x → All OfRow y → All OfRow (if b then x else y)
  if_All true x y p q = p
  if_All false x y p q = q

  same_key-Q :
      (key : Str) (existing row : Row) (d : Dict Row)
      → Q existing
      → Q row
      → All OfRow d
      → All OfRow (same_key env scope key existing row d)
  same_key-Q key existing row d p q h =
      search (if_All, All-insert OfRow, prefer_peer-Q Q env scope) depth 12

  dedupe_row-Q :
      (row : Row) (d : Dict Row) → Q row → All OfRow d → All OfRow (dedupe_row env scope row d)
  unfolding dedupe_row
  dedupe_row-Q row d q h =
      if_both (All OfRow) _ d _ (λ far. h)
        (λ near.
          option_both (All OfRow) (lookup (peer_dedup_key row) d) _ _
            (λ free. All-insert OfRow (peer_dedup_key row) row d q h)
            (λ existing there.
              same_key-Q (peer_dedup_key row) existing row d
                (All-lookup OfRow (peer_dedup_key row) existing d h there) q h))

  pub dedupe_rows-Q :
      (rows : List Row) (d : Dict Row)
      → All Q rows
      → All OfRow d
      → All OfRow (dedupe_rows env scope rows d)
  unfolding dedupe_rows
  dedupe_rows-Q [] d q h = h
  dedupe_rows-Q (row ∷ rows) d q h = dedupe_rows-Q rows _ q.1 (dedupe_row-Q row d q.0 h)

  pub All-values : (d : Dict Row) → All OfRow d → All Q (values d)
  All-values [] h = tt
  All-values ((k, row) ∷ d) h = (h.0, All-values d h.1)

  -- What the second loop has collected: serial rows without an address, and LAN rows under theirs.
  abbrev pub Under : Str × Row → Type 0
  Under (k, row) = Q row × (strip row.ip ≡ k) × (is_serial row ≡ false)

  abbrev pub Serial : Row → Type 0
  Serial row = Q row × (is_serial row ≡ true)

  abbrev pub Collected : Shown → Type 0
  Collected shown =
      All Serial shown.no_ip_peers × IsDict shown.collapsed × All Under shown.collapsed

  show_serial-Collected :
      (rows : List Row) (row : Row) (shown : Shown)
      → Q row
      → is_serial row ≡ true
      → Collected shown
      → Collected (show_serial env rows row shown)
  show_serial-Collected rows row shown q serial h =
      if_both Collected (not env.serial_active) shown _ (λ down. h)
        (λ up.
          if_both Collected _ shown _ (λ yields. h)
            (λ shows.
              (All-append Serial shown.no_ip_peers _ h.0 ((bare row q, serial), tt), h.1, h.2)))

  show_lan-Collected :
      (row : Row) (shown : Shown)
      → Q row
      → is_serial row ≡ false
      → Collected shown
      → Collected (show_lan env scope row shown)
  show_lan-Collected row shown q lan h =
      let ip = strip row.ip in
      let mine : Under (ip, row) = (q, refl, lan) in
      if_both Collected (not (truthy ip)) shown _ (λ missing. h)
        (λ has. (
          h.0,
          insert-IsDict ip _ shown.collapsed h.1,
          All-insert Under ip _ shown.collapsed
              (option_both (λ r. Under (ip, r)) (lookup ip shown.collapsed) row _ (λ free. mine)
                (λ e there.
                  same_ip_preferred-Q (λ r. Under (ip, r)) env scope row e mine
                    (All-lookup Under ip e shown.collapsed h.2 there)))
              h.2,
        ))

  show_row-Collected :
      (rows : List Row) (row : Row) (shown : Shown)
      → Q row
      → Collected shown
      → Collected (show_row env scope rows row shown)
  unfolding show_row
  show_row-Collected rows row shown q h =
      if_both Collected (is_serial row) _ _
        (λ serial. show_serial-Collected rows row shown q serial h)
        (λ lan. show_lan-Collected row shown q lan h)

  pub show_rows-Collected :
      (all_rows rows : List Row) (shown : Shown)
      → All Q rows
      → Collected shown
      → Collected (show_rows env scope all_rows rows shown)
  unfolding show_rows
  show_rows-Collected all_rows [] shown q h = h
  show_rows-Collected all_rows (row ∷ rows) shown q h =
      show_rows-Collected all_rows rows _ q.1 (show_row-Collected all_rows row shown q.0 h)
