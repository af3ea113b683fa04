-- ===== src/Catalog/Types.antt =====
-- catalog/types.go: the descriptors of catalog objects. A string is the list of its bytes, an ordered
-- slice is a list, and a pointer that may be nil is an `Option`.
use sqls.Base.{Bool, List, Option, ℕ}
use sqls.Base.Ints.{ℤ}

-- `sql.NullString`, `sql.NullInt64` and `sql.NullBool`
pub record NullString : Type 0 where
  pub value : List ℕ
  pub valid : Bool

pub record NullInt : Type 0 where
  pub value : ℤ
  pub valid : Bool

pub record NullBool : Type 0 where
  pub value : Bool
  pub valid : Bool

-- `ColumnTypeFacts`
pub record ColumnTypeFacts : Type 0 where
  pub field_type : NullInt
  pub field_sub_type : NullInt
  pub field_scale : NullInt
  pub field_precision : NullInt
  pub field_length : NullInt
  pub character_length : NullInt
  pub character_set_id : NullInt
  pub character_set_name : NullString
  pub collation_id : NullInt
  pub collation_name : NullString
  pub dimensions : NullInt
  pub domain_name : NullString
  pub user_domain : Bool
  pub system_domain : Bool
  pub computed_source : NullString
  pub validation_source : NullString
  pub domain_default : NullString
  pub column_collation_id : NullInt
  pub column_collation_name : NullString

-- `ColumnBase`
pub record ColumnBase : Type 0 where
  pub schema : List ℕ
  pub table : List ℕ
  pub name : List ℕ

-- `ColumnDesc`, whose `ColumnBase` is embedded.
pub record ColumnDesc : Type 0 where
  pub base : ColumnBase
  pub type_text : List ℕ
  pub nullability : List ℕ
  pub key : List ℕ
  pub default_value : NullString
  pub extra : List ℕ
  pub facts : Option ColumnTypeFacts

-- `ForeignKey`: pairs of end points, each of which may be nil.
abbrev pub ForeignKey : Type 0
ForeignKey = List (Option ColumnBase × Option ColumnBase)

-- `ViewDesc`
pub record ViewDesc : Type 0 where
  pub schema : List ℕ
  pub name : List ℕ
  pub owner_name : NullString
  pub view_source : NullString
  pub description : NullString
  pub columns : List (Option ColumnDesc)

-- `GeneratorDesc`
pub record GeneratorDesc : Type 0 where
  pub schema : List ℕ
  pub name : List ℕ
  pub id : NullInt

-- `SystemRelationDesc`
pub record SystemRelationDesc : Type 0 where
  pub schema : List ℕ
  pub name : List ℕ
  pub id : NullInt
  pub owner_name : NullString
  pub is_system : Bool

-- `ExceptionDesc`
pub record ExceptionDesc : Type 0 where
  pub schema : List ℕ
  pub name : List ℕ
  pub number : NullInt
  pub message : NullString

-- `ProcedureParameterDesc`
pub record ProcedureParameterDesc : Type 0 where
  pub name : List ℕ
  pub position : ℤ
  pub direction : List ℕ
  pub type_text : List ℕ
  pub domain_text : List ℕ
  pub nullable : NullBool
  pub description : NullString
  pub facts : Option ColumnTypeFacts
  pub firebird_parameter_mechanism : NullInt
  pub firebird_type_of_field_name : NullString
  pub firebird_type_of_relation_name : NullString

-- `ProcedureDesc`
pub record ProcedureDesc : Type 0 where
  pub schema : List ℕ
  pub name : List ℕ
  pub owner_name : NullString
  pub source : NullString
  pub description : NullString
  pub input_parameters : List (Option ProcedureParameterDesc)
  pub output_parameters : List (Option ProcedureParameterDesc)

-- `TriggerDesc`
pub record TriggerDesc : Type 0 where
  pub schema : List ℕ
  pub name : List ℕ
  pub relation_name : NullString
  pub event : List ℕ
  pub sequence : NullInt
  pub active : NullBool
  pub source : NullString
  pub description : NullString
  pub type_code : NullInt

-- `DomainDesc`
pub record DomainDesc : Type 0 where
  pub schema : List ℕ
  pub name : List ℕ
  pub type_text : List ℕ
  pub nullable : NullBool
  pub default_source : NullString
  pub validation_source : NullString
  pub character_set_name : NullString
  pub collation_name : NullString
  pub description : NullString
  pub facts : Option ColumnTypeFacts

-- `IndexDesc`
pub record IndexDesc : Type 0 where
  pub schema : List ℕ
  pub name : List ℕ
  pub relation_name : List ℕ
  pub columns : List (List ℕ)
  pub expression : NullString
  pub unique : NullBool
  pub active : NullBool
  pub constraint_name : NullString
  pub description : NullString
  pub direction : NullInt

-- `FunctionArgumentDesc`
pub record FunctionArgumentDesc : Type 0 where
  pub name : List ℕ
  pub function_name : List ℕ
  pub position : NullInt
  pub mechanism : NullInt
  pub field_length : NullInt
  pub field_scale : NullInt
  pub field_type : NullInt
  pub field_sub_type : NullInt
  pub character_set_id : NullInt
  pub field_precision : NullInt
  pub character_length : NullInt
  pub type_text : List ℕ

-- `FunctionDesc`
pub record FunctionDesc : Type 0 where
  pub schema : List ℕ
  pub name : List ℕ
  pub function_type : NullInt
  pub system_flag : NullInt
  pub return_type : List ℕ
  pub return_position : NullInt
  pub argument_list : List (Option FunctionArgumentDesc)
  pub module_name : NullString
  pub entry_point : NullString
  pub description : NullString
