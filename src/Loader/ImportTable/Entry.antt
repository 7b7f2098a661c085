-- ===== src/Loader/ImportTable/Entry.antt =====
-- An entry of the table in src/loader/import_table.c, its address by the name of the symbol.
use my_wine.Prelude.{ℕ, List}
use my_wine.Strings.{String, codes}

pub record TableEntry : Type 0 where
  pub table_dll : List ℕ
  pub table_name : List ℕ
  pub symbol : List ℕ

abbrev pub table_entry : String → String → String → TableEntry
table_entry dll name symbol = record {
  table_dll = codes dll;
  table_name = codes name;
  symbol = codes symbol;
}
