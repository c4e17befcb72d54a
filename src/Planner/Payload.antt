-- ===== src/Planner/Payload.antt =====
-- JSON values as the planner reads them, before they are a plan. An object has each key once, since
-- it is a `dict`.
use glassrail.Common.{
  Bool, List, Option, String, [], false, if◌then◌else◌, none, pos, some, true, zero, ℤ, ◌==◌, ◌∷◌,
  string_eq, int_eq,
}
use glassrail.Core.{Json, Items, Members, Float}

-- `d.get(key)`, with `none` for a missing key
unfoldable pub get : String → Members → Option Json
get key Members.end = none
get key (Members.member here value rest) =
    let later = get key rest in if here == key then some value else later

-- `d[key] = value`
unfoldable pub put : String → Json → Members → Members
put key new Members.end = Members.member key new Members.end
put key new (Members.member here value rest) =
    let later = put key new rest in
    if here == key then Members.member here new rest else Members.member here value later

-- `isinstance(v, int)`, and the integer: a `bool` is one too
unfoldable pub as_int : Option Json → Option ℤ
as_int (some (Json.int z)) = some z
as_int (some (Json.bool true)) = some (pos 1)
as_int (some (Json.bool false)) = some (pos 0)
as_int _ = none

-- `d.get(key) == text`
unfoldable pub is_text : Option Json → String → Bool
is_text (some (Json.str s)) text = s == text
is_text _ text = false

-- `v is None` of a value in a dictionary
unfoldable pub is_null : Json → Bool
is_null Json.null = true
is_null _ = false

unfoldable pub item_list : Items → List Json
item_list Items.nil = []
item_list (Items.cons v vs) = v ∷ item_list vs

-- `for x in d.get(key) or []`: what the loop goes through, with `none` for the `TypeError` of a
-- value that is true and cannot be iterated. Over a text or an object it meets texts only.
unfoldable pub iterated : Option Json → Option (List Json)
unfolding item_list
iterated (some (Json.arr vs)) = some (item_list vs)
iterated (some (Json.int z)) = if z == pos 0 then some [] else none
iterated (some (Json.bool true)) = none
iterated (some (Json.float (Float.finite (pos zero) e))) = some []
iterated (some (Json.float f)) = none
iterated _ = some []
