-- ===== src/Mysql/Tests.antt =====
-- Concrete conditions, rows and configurations, and the theorems at them.
use touch_go_core.Prelude.{if◌then◌else◌, [], ◌∷◌, ◌++◌, some, Bytes, codes, true, ◌≡◌, refl, arith}
use touch_go_core.Prelude.Int.{pos}
use touch_go_core.Format.{Value, fill, text, number}
use touch_go_core.Format.Fill.{both, marks}
use touch_go_core.Mysql.{
  Condition, texts, set_filter_ex, set_filter_or, set_data_map, zero_condition, join, eq_bytes,
  update_statement,
}
use touch_go_core.Mysql.Placeholders.{
  Balanced, of_table, or_all, args_of, set_filter_ex-Balanced, set_filter_or-Balanced,
}
use touch_go_core.Mysql.Statements.{
  assigned, update_statement-assigned, update_statement-set_filter_or,
}
use touch_go_core.Mysql.Rows.{Row, get_all, at_end}
use touch_go_core.Mysql.RowsOrder.{collect, collect-get_all}
use touch_go_core.Mysql.Connection.{MySqlDbConfig}

abbrev users : Condition
users = record zero_condition { table_name = codes "users" }

abbrev by_name : Condition
by_name = record users {
  filter = true;
  where_sql = codes "name = '?'";
  args = text (codes "bob") ∷ [];
}

abbrev age : Bytes × Value
age = (codes "age", number (pos 40))

abbrev city : Bytes × Value
city = (codes "city", text (codes "Rome"))

by_name-Balanced : Balanced by_name
unfolding marks
by_name-Balanced = refl

set_filter_ex-Balanced_example :
    Balanced (set_filter_ex (codes "id") (codes "=") (texts (codes "a?b" ∷ codes "c" ∷ [])) by_name)
set_filter_ex-Balanced_example =
    set_filter_ex-Balanced (codes "id") (codes "=") (texts (codes "a?b" ∷ codes "c" ∷ [])) by_name
      refl refl by_name-Balanced

abbrev of_items : Condition
of_items = record by_name { table_name = codes "items" }

-- The second condition is on another table.
one_kept : of_table (codes "users") (by_name ∷ of_items ∷ []) ≡ by_name ∷ []
unfolding of_table eq_bytes
one_kept = refl

set_filter_or-Balanced_example :
    let ds = by_name ∷ of_items ∷ [] in
    ((set_filter_or ds by_name).where_sql ≡ or_all by_name.where_sql (of_table (codes "users") ds))
    × ((set_filter_or ds by_name).args ≡ by_name.args ++ args_of (of_table (codes "users") ds))
    × Balanced (set_filter_or ds by_name)
set_filter_or-Balanced_example =
    set_filter_or-Balanced (by_name ∷ of_items ∷ []) by_name by_name-Balanced
      (by_name-Balanced, (by_name-Balanced, tt))

update_statement-assigned_example :
    update_statement (some (set_data_map (age ∷ city ∷ []) by_name))
    ≡ both
        (some (
          codes "update "
          ++ codes "users"
          ++ codes " set "
          ++ join (assigned age ∷ assigned city ∷ []) (codes ",")))
        (if by_name.filter
          then fill (codes " where " ++ by_name.where_sql) by_name.args
          else some [])
update_statement-assigned_example =
    update_statement-assigned age (city ∷ []) by_name (refl, refl)
      ((refl, refl), ((refl, refl), tt))

update_statement-set_filter_or_example :
    update_statement (some (set_data_map (age ∷ []) (set_filter_or (by_name ∷ []) users)))
    ≡ update_statement (some (set_data_map (age ∷ []) users))
update_statement-set_filter_or_example =
    update_statement-set_filter_or (by_name ∷ []) users (age ∷ []) refl

abbrev first_row : Row
first_row = (codes "id", codes "1") ∷ []

abbrev second_row : Row
second_row = (codes "id", codes "2") ∷ []

collect-get_all_example :
    collect 3 (get_all (first_row ∷ second_row ∷ [])) ≡ (first_row ∷ second_row ∷ [], some at_end)
collect-get_all_example =
    collect-get_all (first_row ∷ second_row ∷ []) 3 (omega arith) (omega arith)

abbrev config : MySqlDbConfig
config = record {
  host = codes "db";
  username = codes "me";
  password = codes "pw";
  db_name = codes "game";
  max_idle_conns = 10;
  max_open_conns = 100;
}
