-- ===== src/Message/Tests.antt =====
-- A message there and back, and the theorems at concrete messages.
use chatx.Prelude.{◌≡◌, refl, true, none, some, [], arith, nat_eq}
use chatx.Text.{codes}
use chatx.Message.{ChatMessage, Wire, to_dict, from_dict, from_dict-to_dict}

abbrev hello : ChatMessage
hello = record {
  msg_type = codes "text";
  content = codes "hello";
  sender = some (codes "abcd");
  timestamp = 1700;
  file_name = none;
  file_size = none;
  msg_id = codes "m1";
  hub_group = true;
}

abbrev bare : Wire
bare = record {
  type = none;
  content = none;
  timestamp = none;
  msg_id = none;
  sender = some [];
  file_name = none;
  file_size = some 0;
  hub = none;
}

bare_is_text : (from_dict 5 (codes "id") bare).msg_type ≡ codes "text"
unfolding from_dict
bare_is_text = refl

from_dict-to_dict_example : from_dict 9 (codes "id") (to_dict hello) ≡ hello
from_dict-to_dict_example =
    from_dict-to_dict 9 (codes "id") hello
      (ground arith, ground arith, ground arith, ground arith, ground arith)
