-- ===== src/Json.antt =====
-- The JSON values that the scripts exchange (`json.loads`, `json.dumps`). A float is kept by the text
-- that `str` makes of it.
use taihu.Base.{
  ◌≡◌, refl, arith, ==_iff, Bool, true, false, not, ◌||◌, lit, pos, eqb, is_empty, Option, none,
  some, Text, ◌==◌, ℤ, negsuc, if◌then◌else◌, List, [], ◌∷◌,
}

mutual
  pub data Json : Type 0 where
    null : Json
    flag : Bool → Json
    int : ℤ → Json
    float : Text → Json
    str : Text → Json
    arr : Items → Json
    obj : Fields → Json

  pub data Items : Type 0 where
    nil : Items
    cons : Json → Items → Items

  pub data Fields : Type 0 where
    end : Fields
    field : Text → Json → Fields → Fields

-- `d.get(key)`; a document with a key twice has been read with the later value in its place.
unfoldable pub get : Text → Fields → Option Json
get key end = none
get key (field k v d) = if k == key then some v else get key d

-- `d[key] = value`
unfoldable pub assign : Text → Json → Fields → Fields
assign key value end = field key value end
assign key value (field k v d) =
    if k == key then field k value d else field k v (assign key value d)

-- `d.pop(key, None)`
unfoldable pub remove : Text → Fields → Fields
remove key end = end
remove key (field k v d) = let rest = remove key d in if k == key then rest else field k v rest

abbrev pub texts : List Text → Items
texts [] = nil
texts (t ∷ ts) = cons (str t) (texts ts)

-- `bool(v)`: a number is false if it is 0, a text or a container if it is empty.
unfoldable pub is_true : Json → Bool
unfolding ◌==◌
is_true null = false
is_true (flag b) = b
is_true (int (pos n)) = not (eqb n 0)
is_true (int (negsuc n)) = true
is_true (float s) = not (s == lit "0.0" || s == lit "-0.0")
is_true (str s) = not (is_empty s)
is_true (arr nil) = false
is_true (arr (cons v items)) = true
is_true (obj end) = false
is_true (obj (field k v d)) = true

-- `d.get(key, default)`, and `get(key)` where `None` is the default.
abbrev pub or_default : Json → Option Json → Json
or_default default none = default
or_default default (some v) = v

-- `v if isinstance(v, dict) else None`
abbrev pub as_dict : Json → Option Fields
as_dict (obj d) = some d
as_dict _ = none

pub get-assign :
    (k l : Text) (v : Json) (d : Fields)
    → get l (assign k v d) ≡ (if k == l then some v else get l d)
unfolding get assign
get-assign k l v end = refl
get-assign k l v (field m w d) =
    ground (arith, get-assign k l v d, ==_iff m k, ==_iff k l, ==_iff m l)
