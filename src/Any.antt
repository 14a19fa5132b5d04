-- ===== src/Any.antt =====
-- Go's `any` as `encoding/json` and the Kubernetes client fill it: a decoded JSON value.
use cupboard.Prelude.{Bool, List, [], ◌∷◌, Option, none, some, if◌then◌else◌, ◌≡◌, refl, arith}
use cupboard.Text.{Text, ◌==◌, eq_iff}

mutual
  pub data Any : Type 0 where
    null : Any
    bool : Bool → Any
    -- a number, by its literal
    number : Text → Any
    string : Text → Any
    array : Items → Any
    object : Fields → Any

  pub data Items : Type 0 where
    no_items : Items
    item : Any → Items → Items

  pub data Fields : Type 0 where
    no_fields : Fields
    field : Text → Any → Fields → Fields

-- The elements of a `[]any`.
unfoldable pub elements : Items → List Any
elements no_items = []
elements (item v vs) = v ∷ elements vs

-- `m[key]` on a `map[string]any`
unfoldable pub get : Text → Fields → Option Any
get k no_fields = none
get k (field j v fs) = if j == k then some v else get k fs

-- `v.(string)`
unfoldable pub as_string : Any → Option Text
as_string (string s) = some s
as_string _ = none

-- `v.(map[string]any)`
unfoldable pub as_object : Any → Option Fields
as_object (object fs) = some fs
as_object _ = none

-- `m[key] = v`
unfoldable pub put : Text → Any → Fields → Fields
put k v no_fields = Fields.field k v no_fields
put k v (field j w fs) = let rest = field j w (put k v fs) in if j == k then field j v fs else rest

-- The value that is put under a key is found there, and the others are as before.
pub get-put :
    (k j : Text) (v : Any) (fs : Fields)
    → get j (put k v fs) ≡ (if k == j then some v else get j fs)
unfolding get put
get-put k j v no_fields = refl
get-put k j v (field i w fs) = ground (arith, get-put k j v fs, eq_iff i k, eq_iff i j, eq_iff k j)
