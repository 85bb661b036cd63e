-- ===== src/Settings/Store.antt =====
-- src/adp/core/app_settings.py. A stored value is what JSON has; a list or a number is opaque.
use adp_pro.Prelude.{ℕ, String, ◌==◌, string_eq, Bool, Option, none, some, if◌then◌else◌}

-- An object is a Python dictionary: its members in insertion order.
mutual
  pub data Json : Type 0 where
    null : Json
    boolean : Bool → Json
    number : ℕ → Json
    text : String → Json
    array : ℕ → Json
    object : Members → Json

  pub data Members : Type 0 where
    no_members : Members
    member : String → Json → Members → Members

unfoldable pub lookup : String → Members → Option Json
lookup k no_members = none
lookup k (member j v rest) = if j == k then some v else lookup k rest

unfoldable pub assign : String → Json → Members → Members
assign k v no_members = member k v no_members
assign k v (member j w rest) = if j == k then member j v rest else member j w (assign k v rest)

-- `_deep_merge`, and what becomes of one key: two objects are merged, else the overlay's value is taken.
unfoldable mutual
  pub merge_value : Json → Option Json → Json
  merge_value null old = null
  merge_value (boolean b) old = boolean b
  merge_value (number n) old = number n
  merge_value (text s) old = text s
  merge_value (array n) old = array n
  merge_value (object o) none = object o
  merge_value (object o) (some null) = object o
  merge_value (object o) (some (boolean b)) = object o
  merge_value (object o) (some (number n)) = object o
  merge_value (object o) (some (text s)) = object o
  merge_value (object o) (some (array n)) = object o
  merge_value (object o) (some (object base)) = object (deep_merge o base)

  pub deep_merge : Members → Members → Members
  deep_merge no_members base = base
  deep_merge (member k v rest) base =
      deep_merge rest (assign k (merge_value v (lookup k base)) base)

-- The file of the settings: there is none, it cannot be read, or it holds a value.
pub data SettingsFile : Type 0 where
  no_file broken : SettingsFile
  holds : Json → SettingsFile

-- None where it raises: a stored value that is no object has no `items`.
unfoldable pub load : Members → SettingsFile → Option Members
load defaults no_file = some defaults
load defaults broken = some defaults
load defaults (holds (object stored)) = some (deep_merge stored defaults)
load defaults (holds null) = none
load defaults (holds (boolean b)) = none
load defaults (holds (number n)) = none
load defaults (holds (text s)) = none
load defaults (holds (array n)) = none
