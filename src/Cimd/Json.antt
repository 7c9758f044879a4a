-- ===== src/Cimd/Json.antt =====
-- The values that JSON.parse gives. An object has each key once. A number that is no natural number is
-- a `fraction`, since the code reads none.
use mcp_sso.Common.{
  ℕ, String, List, [], ◌∷◌, Option, none, some, Bool, ◌==◌, is_some, if◌then◌else◌,
}

mutual
  pub data Json : Type 0 where
    null : Json
    boolean : Bool → Json
    number : ℕ → Json
    fraction : Json
    text : String → Json
    array : Items → Json
    object : Members → Json

  pub data Items : Type 0 where
    no_items : Items
    item : Json → Items → Items

  pub data Members : Type 0 where
    no_members : Members
    member : String → Json → Members → Members

unfoldable pub items : Items → List Json
items no_items = []
items (item v vs) = v ∷ items vs

-- `[...texts]` as a JSON array.
unfoldable pub text_items : List String → Items
text_items [] = no_items
text_items (s ∷ ss) = item (text s) (text_items ss)

-- `object[key]`, none where it is undefined.
unfoldable pub own : String → Members → Option Json
own key no_members = none
own key (member k v ms) = if k == key then some v else own key ms

abbrev pub has_own : String → Members → Bool
has_own key ms = is_some (own key ms)
