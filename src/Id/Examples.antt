-- ===== src/Id/Examples.antt =====
-- An identifier and its text; the theorem at it.
use marie.Base.{◌-◌, ◌^◌, ◌≡◌, arith, some, ok, length}
use marie.Id.{UniqueId}
use marie.Id.Text.{to_string, from_str, from_str-to_string}

abbrev id : UniqueId
id = record { prefix = 48879; local = 2 ^ 64 - 1 }

from_str-to_string_example : (length (to_string id) ≡ 32) × (from_str (to_string id) ≡ some (ok id))
from_str-to_string_example = from_str-to_string id (omega arith) (omega arith)
