-- ===== src/Catalog/Identity.antt =====
-- catalog/identity.go: `ObjectID` and its key. A string is the list of its bytes.
use sqls.Base.{
  List, [], codes, if◌then◌else◌, is_empty, length, ltb, suc, zero, ℕ, ◌%◌, ◌++◌, ◌+◌, ◌/◌, ◌∷◌,
}

-- `ObjectKind`, by the string it is.
abbrev pub kind_table : List ℕ
kind_table = codes "table"

abbrev pub kind_view : List ℕ
kind_view = codes "view"

abbrev pub kind_procedure : List ℕ
kind_procedure = codes "procedure"

abbrev pub kind_trigger : List ℕ
kind_trigger = codes "trigger"

abbrev pub kind_domain : List ℕ
kind_domain = codes "domain"

abbrev pub kind_index : List ℕ
kind_index = codes "index"

abbrev pub kind_generator : List ℕ
kind_generator = codes "generator"

abbrev pub kind_function : List ℕ
kind_function = codes "function"

abbrev pub kind_exception : List ℕ
kind_exception = codes "exception"

-- `ObjectID`
pub record ObjectId : Type 0 where
  pub catalog : List ℕ
  pub schema : List ℕ
  pub owner : List ℕ
  pub kind : List ℕ
  pub name : List ℕ
  pub parent : List ℕ

-- An `ObjectID` of which only the kind and the name are set.
abbrev pub plain_id : List ℕ → List ℕ → ObjectId
plain_id kind name = record {
  catalog = [];
  schema = [];
  owner = [];
  kind = kind;
  name = name;
  parent = [];
}

-- `strconv.AppendInt(nil, n, 10)`: no number has more digits than its value, and one.
abbrev pub digits_of : ℕ → ℕ → List ℕ
digits_of zero n = []
digits_of (suc fuel) n =
    if ltb n 10 then (b'0' + n) ∷ [] else digits_of fuel (n / 10) ++ (b'0' + n % 10) ∷ []

unfoldable pub decimal_text : ℕ → List ℕ
decimal_text n = digits_of (suc n) n

-- The pass of the loop for one component.
unfoldable pub component : List ℕ → List ℕ
unfolding decimal_text
component c = decimal_text (length c) ++ b':' ∷ c

abbrev pub components : ObjectId → List (List ℕ)
components i =
    i.catalog
    ∷ i.schema
    ∷ i.owner
    ∷ i.kind
    ∷ i.name
    ∷ (if is_empty i.parent then [] else i.parent ∷ [])

abbrev pub write_all : List (List ℕ) → List ℕ
write_all [] = []
write_all (c ∷ cs) = component c ++ write_all cs

-- `(ObjectID).Key`
unfoldable pub object_key : ObjectId → List ℕ
unfolding component
object_key i = write_all (components i)

-- `IndexObjectID`
unfoldable pub index_object_id : List ℕ → List ℕ → List ℕ → ObjectId
index_object_id schema relation name = record (plain_id kind_index name) {
  schema = schema;
  parent = if is_empty schema then [] else relation;
}
