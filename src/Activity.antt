-- ===== src/Activity.antt =====
-- RawActivity of internal/activitypub/inbox.go, and the decoded JSON of its object.
use apoci.Prelude.{ℕ, Text, codes, Option, none, some, []}
use apoci.Prelude.Maps
use apoci.Prelude.Maps.{Map}

-- A number of a JSON text. The program reads sizes; one that is not whole is not modelled.
pub data Number : Type 0 where
  whole : ℕ → Number
  negative : ℕ → Number

-- A field of a JSON object, as far as the program asks for its type.
pub data Value : Type 0 where
  text_value : Text → Value
  number_value : Number → Value
  other_value : Value

-- The field `object`: a map, a bare id, or anything else.
pub data Object : Type 0 where
  object_map : Map Value → Object
  object_id : Text → Object
  object_other : Object

pub record RawActivity : Type 0 where
  pub id : Text
  pub kind : Text
  pub actor : Text
  pub object : Object

abbrev pub activity_follow : Text
activity_follow = codes "Follow"

abbrev pub activity_accept : Text
activity_accept = codes "Accept"

abbrev pub activity_reject : Text
activity_reject = codes "Reject"

abbrev pub activity_undo : Text
activity_undo = codes "Undo"

abbrev pub activity_create : Text
activity_create = codes "Create"

abbrev pub activity_update : Text
activity_update = codes "Update"

abbrev pub activity_announce : Text
activity_announce = codes "Announce"

abbrev pub activity_delete : Text
activity_delete = codes "Delete"

abbrev text_of : Option Value → Text
text_of none = []
text_of (some (text_value t)) = t
text_of (some (number_value _)) = []
text_of (some other_value) = []

abbrev number_of : Option Value → Number
number_of none = whole 0
number_of (some (text_value t)) = whole 0
number_of (some (number_value n)) = n
number_of (some other_value) = whole 0

-- `v, _ := obj[key].(string)`: the empty string where there is no string.
unfoldable pub text_field : Text → Map Value → Text
text_field key obj = text_of (Maps.get key obj)

-- `v, _ := obj[key].(float64)`
unfoldable pub number_field : Text → Map Value → Number
number_field key obj = number_of (Maps.get key obj)

-- extractObjectType; `none` is its second result, false.
unfoldable pub extract_object_type : Object → Option Text
unfolding text_field
extract_object_type (object_map obj) = some (text_field (codes "type") obj)
extract_object_type (object_id _) = some activity_follow
extract_object_type object_other = none
