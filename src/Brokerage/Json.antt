-- ===== src/Brokerage/Json.antt =====
-- The JSON values that the brokerage application keeps and exchanges, as Python reads them.
use package.text.Mathlib.Text.{◌==◌ as str_eq}
use djaskt_trading_app.Prelude.{
  String, ◌==◌, ◌&&◌, Bool, true, false, not, Option, none, some, if◌then◌else◌,
}
use djaskt_trading_app.Prelude.Int.{pos_part, neg_part}
use djaskt_trading_app.Decimal.{Decimal}

mutual
  pub data Json : Type 0 where
    null : Json
    boolean : Bool → Json
    number : Decimal → Json
    text : String → Json
    array : Items → Json
    object : Fields → Json

  pub data Items : Type 0 where
    nil : Items
    cons : Json → Items → Items

  pub data Fields : Type 0 where
    end : Fields
    field : String → Json → Fields → Fields

-- `d.get(key)`: JSON gives a key once.
unfoldable pub get : String → Fields → Option Json
get key end = none
get key (field k v d) = let rest = get key d in if str_eq k key then some v else rest

-- `{**d, key: value}`
unfoldable pub put : String → Json → Fields → Fields
put key value end = field key value end
put key value (field k v d) =
    let rest = put key value d in if str_eq k key then field k value d else field k v rest

-- The truth of a value.
abbrev pub is_true : Json → Bool
is_true null = false
is_true (boolean b) = b
is_true (number d) = not (pos_part d.coeff == 0 && neg_part d.coeff == 0)
is_true (text t) = not (str_eq t "")
is_true (array nil) = false
is_true (array (cons v vs)) = true
is_true (object end) = false
is_true (object (field k v d)) = true

-- The truth of `d.get(key)`, where `None` is false.
abbrev pub is_given : Option Json → Bool
is_given none = false
is_given (some v) = is_true v
