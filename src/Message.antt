-- ===== src/Message.antt =====
-- A chat message and the JSON dictionary it travels as (`ChatMessage` of chatx5/core/messaging/models.py). The
-- clock and the fresh id are arguments; a missing field and `None` are the same.
mod Tests
use chatx.Prelude.{
  ℕ, zero, suc, ◌+◌, ◌-◌, ◌*◌, ◌/◌, ◌%◌, ◌≤◌, ◌<◌, max, min, ◌≡◌, refl, sym, ap, ◌∙◌, ◌≢◌, ◌↔◌, ◌⊎◌,
  inl, inr, Bool, true, false, not, ◌&&◌, ◌||◌, Option, none, some, List, [], ◌∷◌, ◌++◌, map,
  append-nil, append_assoc, arith, ltb, leb, nat_beq, nat_beq_iff, if◌then◌else◌, Bool-cases,
  Option-cases, Eq, ◌==◌, nat_eq, contains, length, drop, take, keep, count, any, all,
  length-append, length-drop, length-keep-le, keep-append, keep-keep, All, All-append, All-keep,
  All-drop,
}
use chatx.Text.{Str, codes, truthy, or_else, or_empty}

pub record ChatMessage : Type 0 where
  pub msg_type : Str
  pub content : Str
  pub sender : Option Str
  pub timestamp : ℕ
  pub file_name : Option Str
  pub file_size : Option ℕ
  pub msg_id : Str
  pub hub_group : Bool

-- The dictionary.
pub record Wire : Type 0 where
  pub type : Option Str
  pub content : Option Str
  pub timestamp : Option ℕ
  pub msg_id : Option Str
  pub sender : Option Str
  pub file_name : Option Str
  pub file_size : Option ℕ
  pub hub : Option Bool

-- `x or now`, for a number that may be missing.
abbrev number_or : Option ℕ → ℕ → ℕ
number_or none now = now
number_or (some n) now = if n == 0 then now else n

abbrev if_text : Option Str → Option Str
if_text none = none
if_text (some s) = if truthy s then some s else none

abbrev if_number : Option ℕ → Option ℕ
if_number none = none
if_number (some n) = if n == 0 then none else some n

-- `ChatMessage(...)`
unfoldable pub new_message :
    (now : ℕ) (fresh_id : Str) (msg_type content : Str) (sender : Option Str) (timestamp : Option ℕ)
    (file_name : Option Str) (file_size : Option ℕ) (msg_id : Option Str)
    → ChatMessage
new_message now fresh_id msg_type content sender timestamp file_name file_size msg_id = record {
  msg_type = msg_type;
  content = content;
  sender = sender;
  timestamp = number_or timestamp now;
  file_name = file_name;
  file_size = file_size;
  msg_id = or_else (or_empty msg_id) fresh_id;
  hub_group = false;
}

unfoldable pub to_dict : ChatMessage → Wire
to_dict m = record {
  type = some m.msg_type;
  content = some m.content;
  timestamp = some m.timestamp;
  msg_id = some m.msg_id;
  sender = if_text m.sender;
  file_name = if_text m.file_name;
  file_size = if_number m.file_size;
  hub = if m.hub_group then some true else none;
}

-- `d.get(key, default)`
abbrev get_or {ℓ} : {A : Type ℓ} → Option A → A → A
get_or none d = d
get_or (some v) d = v

unfoldable pub from_dict : ℕ → Str → Wire → ChatMessage
unfolding new_message
from_dict now fresh_id d =
    let m =
      new_message now fresh_id (get_or d.type (codes "text")) (get_or d.content []) d.sender
        (some (get_or d.timestamp now)) d.file_name d.file_size d.msg_id in
    record m { hub_group = get_or d.hub false }

-- A field that is empty is as good as missing.
abbrev pub IsGiven : ChatMessage → Type 0
IsGiven m =
    (m.timestamp ≢ 0)
    × (m.msg_id ≢ [])
    × (m.sender ≢ some [])
    × (m.file_name ≢ some [])
    × (m.file_size ≢ some 0)

-- A message with a time and an id, none of whose fields is present but empty, comes back from its
-- dictionary as it was, whatever the clock and the fresh id.
pub from_dict-to_dict :
    (now : ℕ) (fresh_id : Str) (m : ChatMessage)
    → IsGiven m
    → from_dict now fresh_id (to_dict m) ≡ m
unfolding from_dict to_dict
from_dict-to_dict now fresh_id m h = ground arith

-- What a receiver makes of any dictionary goes on unchanged: if the clock and the fresh id are not
-- empty, a message read from a dictionary, sent on and read again gives the same dictionary.
pub to_dict-from_dict :
    (now later : ℕ) (fresh_id later_id : Str) (d : Wire)
    → now ≢ 0
    → fresh_id ≢ []
    → to_dict (from_dict later later_id (to_dict (from_dict now fresh_id d)))
      ≡ to_dict (from_dict now fresh_id d)
unfolding from_dict to_dict
to_dict-from_dict now later fresh_id later_id d h k = ground arith
