-- ===== src/Control/Json.antt =====
-- What `json.loads` gives, and what the requests take from it.
use wifipi.Text.{int_of_text}
use wifipi.Prelude.{not, nat_beq, ◌==◌, if◌then◌else◌, Bool, true, false, ◌∷◌, [], list_eq}
use wifipi.Prelude.Int.{ℤ, pos, negsuc}
use wifipi.Prelude.Result.{Result, ok, err, value_error, type_error, overflow_error}
use wifipi.Routes.Entry.{Name}

-- A float: the integer part towards 0, and whether it is 0.0; or one that is no number.
pub data Float : Type 0 where
  finite : ℤ → Bool → Float
  infinite nan : Float

mutual
  pub data Json : Type 0 where
    null : Json
    bool : Bool → Json
    int : ℤ → Json
    float : Float → Json
    text : Name → Json
    array : Items → Json
    object : Members → Json

  pub data Items : Type 0 where
    no_item : Items
    item : Json → Items → Items

  pub data Members : Type 0 where
    no_member : Members
    member : Name → Json → Members → Members

-- `d.get(key, default)`
unfoldable pub get_or_else : Name → Json → Members → Json
get_or_else key default no_member = default
get_or_else key default (member k v ms) = if k == key then v else get_or_else key default ms

-- whether Python takes the value for true
abbrev pub is_true : Json → Bool
is_true null = false
is_true (bool b) = b
is_true (int (pos n)) = not (nat_beq n 0)
is_true (int (negsuc n)) = true
is_true (float (finite z zero_float)) = not zero_float
is_true (float infinite) = true
is_true (float nan) = true
is_true (text []) = false
is_true (text (c ∷ s)) = true
is_true (array no_item) = false
is_true (array (item x xs)) = true
is_true (object no_member) = false
is_true (object (member k v ms)) = true

-- `int(x)`
unfoldable pub int_of : Json → Result ℤ
int_of null = err type_error
int_of (bool b) = ok (pos (if b then 1 else 0))
int_of (int z) = ok z
int_of (float (finite z zero_float)) = ok z
int_of (float infinite) = err overflow_error
int_of (float nan) = err value_error
int_of (text s) = int_of_text s
int_of (array xs) = err type_error
int_of (object ms) = err type_error
