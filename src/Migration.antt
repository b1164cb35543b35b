-- ===== src/Migration.antt =====
-- The operations of a database migration, as alembic/versions/20260704_initial_schema.py uses them. The
-- database that carries them out is a parameter.
pub mod Accounts
pub mod Billing
pub mod Initial
pub mod Repeat
use enterprise_fast_api_boil.Base.{
  ℕ, String, ◌≡◌, Bool, true, false, not, ◌&&◌, ◌||◌, Option, none, some, List, [], ◌∷◌, ◌=s◌,
}

pub data ColumnType : Type 0 where
  integer boolean date_time json : ColumnType
  string : ℕ → ColumnType

-- `server_default`: a text, or `sa.text`
pub data ServerDefault : Type 0 where
  literal sql : String → ServerDefault

pub record Column : Type 0 where
  pub name : String
  pub column_type : ColumnType
  pub nullable : Bool
  pub unique : Bool
  pub server_default : Option ServerDefault

abbrev pub required : String → ColumnType → Column
required name t = record {
  name = name;
  column_type = t;
  nullable = false;
  unique = false;
  server_default = none;
}

abbrev pub optional : String → ColumnType → Column
optional name t = record (required name t) { nullable = true }

abbrev pub unique_column : String → ColumnType → Column
unique_column name t = record (required name t) { unique = true }

abbrev pub defaulted : String → ColumnType → ServerDefault → Column
defaulted name t d = record (required name t) { server_default = some d }

pub record ForeignKey : Type 0 where
  pub column : String
  pub table : String
  pub target : String

pub record Table : Type 0 where
  pub name : String
  pub columns : List Column
  pub foreign_keys : List ForeignKey
  pub primary_key : List String
  pub unique_constraints : List (List String)

pub data Operation : Type 0 where
  create_table : Table → Operation
  -- index, table, column, unique
  create_index : String → String → String → Bool → Operation
  execute : String → Operation
  -- index, table
  drop_index : String → String → Operation
  drop_table : String → Operation

-- Which tables there are after an operation that succeeded.
abbrev pub exists_after : Operation → String → Bool → Bool
exists_after (create_table t) n old = t.name =s n || old
exists_after (drop_table m) n old = not (m =s n) && old
exists_after (create_index _ _ _ _) n old = old
exists_after (execute _) n old = old
exists_after (drop_index _ _) n old = old

-- A database under migrations. A table that is there cannot be created again; only CREATE TABLE and
-- DROP TABLE change which tables there are.
pub record Engine : Type 1 where
  pub State : Type 0
  pub has_table : String → State → Bool
  pub apply : Operation → State → Option State
  pub create_existing :
      (t : Table) (s : State) → has_table t.name s ≡ true → apply (create_table t) s ≡ none
  pub has_table-apply :
      (op : Operation) (n : String) (s s' : State)
      → apply op s ≡ some s'
      → has_table n s' ≡ exists_after op n (has_table n s)

module _ (E : Engine) where
  -- A migration stops at the first operation that fails.
  unfoldable pub run : List Operation → E.State → Option E.State
  run [] s = some s
  run (op ∷ ops) s = elim (E.apply op s) [ none ↦ none | some s' ↦ run ops s' ]
