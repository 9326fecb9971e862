-- ===== src/Mysql/Rows.antt =====
-- Rows and DBResult of db/mysql.go. The rows of a result are a parameter.
use touch_go_core.Prelude.{
  ℕ, suc, List, [], ◌∷◌, Option, none, some, ◌==◌, if◌then◌else◌, leb, Bytes, length, get_elem?,
}
use touch_go_core.Mysql.{eq_bytes}

-- A row of a result: its columns, each with the text of its value.
abbrev pub Row : Type 0
Row = List (Bytes × Bytes)

pub data RowsError : Type 0 where
  single_row no_data at_end : RowsError

-- `row` and `rows` are nil pointers where they are `none`.
pub record Rows : Type 0 where
  pub row : Option Row
  pub rows : Option (List Row)
  pub row_index : ℕ

-- `Next`. The index grows also when there is no row any more.
unfoldable pub next : Rows → Option RowsError × Rows
next r = elim r.rows [
  | none ↦ (some single_row, r)
  | some rs ↦ elim r.row [
    | none ↦
        if length rs == 0
        then (some no_data, r)
        else (none, record r { row = get_elem? rs r.row_index })
    | some x ↦
        if length rs == 0
        then (some no_data, r)
        else if leb (length rs) (suc r.row_index)
        then (some at_end, record r { row_index = suc r.row_index })
        else (none, record r { row_index = suc r.row_index; row = get_elem? rs (suc r.row_index) })
  ]
]

unfoldable pub column : Bytes → Row → Option Bytes
column key [] = none
column key (e ∷ es) = if eq_bytes key e.0 then some e.1 else column key es

unfoldable pub get_string : Bytes → Rows → Bytes
get_string key r = elim r.row [
  | none ↦ []
  | some x ↦ elim (column key x) [ none ↦ [] | some v ↦ v ]
]

-- `DBResult` is the sequence of its rows. `GetOne` panics when there is none.
abbrev pub DbResult : Type 0
DbResult = List Row

unfoldable pub count : DbResult → ℕ
count values = length values

unfoldable pub get_one : DbResult → Option Rows
get_one [] = none
get_one (x ∷ xs) = some (record { row = some x; rows = none; row_index = 0 })

unfoldable pub get_all : DbResult → Rows
get_all values = record { row = none; rows = some values; row_index = 0 }
