-- ===== src/Platform/Schema/Column.antt =====
-- A column of a table, as `CREATE TABLE` declares it.
use sarra.Common.{String}
use sarra.Value.{Value}

pub data Kind : Type 0 where
  text integer real : Kind

-- Whether it may be NULL: `NOT NULL`, `PRIMARY KEY` or neither
pub data Rule : Type 0 where
  nullable required primary : Rule

-- `fallback` is its DEFAULT; without one it is NULL.
pub record SqlColumn : Type 0 where
  pub name : String
  pub kind : Kind
  pub rule : Rule
  pub fallback : Value

abbrev pub col : String → Kind → Rule → Value → SqlColumn
col name kind rule fallback = record { name = name; kind = kind; rule = rule; fallback = fallback }
