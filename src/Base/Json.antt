-- ===== src/Base/Json.antt =====
-- JSON values of the language.
use mathlib.Core.Bool.{Bool, false, ◌||◌}
use mathlib.Core.Option.{Option, none, some}
use mathlib.Core.List.{List, [], ◌∷◌, ◌++◌}
use itcenter.Base.Tests.{if◌then◌else◌}
use itcenter.Base.Int.{ℤ}
use itcenter.Base.Trim.{Text}
use itcenter.Base.Texts.{text_eq}

-- A number: a finite one as a multiple of 2^-1074, which every finite double is.
pub data Number : Type 0 where
  finite : ℤ → Number
  infinity minus_infinity not_a_number : Number

-- An object is its own keys with their values, in the order of the object.
mutual
  pub data Json : Type 0 where
    null : Json
    boolean : Bool → Json
    number : Number → Json
    text : Text → Json
    array : Items → Json
    object : Fields → Json

  pub data Items : Type 0 where
    nil : Items
    cons : Json → Items → Items

  pub data Fields : Type 0 where
    end : Fields
    field : Text → Json → Fields → Fields

abbrev pub items : Items → List Json
items nil = []
items (cons v vs) = v ∷ items vs

abbrev pub keys : Fields → List Text
keys end = []
keys (field k v fs) = k ∷ keys fs

-- The value of a key of an object; a key that it inherits is not among the fields.
unfoldable pub lookup : Text → Fields → Option Json
lookup key end = none
lookup key (field k v fs) = if text_eq k key then some v else lookup key fs

unfoldable pub has_key : Text → Fields → Bool
has_key key end = false
has_key key (field k v fs) = text_eq k key || has_key key fs

-- Texts joined, and entries of an object sorted by their keys, the equal ones in their order.
unfoldable pub join : Text → List Text → Text
join sep [] = []
join sep (t ∷ []) = t
join sep (t ∷ ts) = t ++ (sep ++ join sep ts)

unfoldable pub insert_entry :
    (Text → Text → Bool) → Text × Text → List (Text × Text) → List (Text × Text)
insert_entry before e [] = e ∷ []
insert_entry before e (f ∷ es) =
    let rest = insert_entry before e es in if before (f.0) (e.0) then f ∷ rest else e ∷ f ∷ es

unfoldable pub sort_entries : (Text → Text → Bool) → List (Text × Text) → List (Text × Text)
sort_entries before [] = []
sort_entries before (e ∷ es) = insert_entry before e (sort_entries before es)
