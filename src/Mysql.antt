-- ===== src/Mysql.antt =====
-- db/mysql.go: the conditions and the SQL statements made of them. A Go map stands as the sequence of its entries, in the order in which the traversal
-- of the source meets them. The database itself is a parameter.
pub mod Placeholders
pub mod Statements
pub mod Rows
pub mod RowsOrder
pub mod Connection
mod Tests
use mathlib.Core.Option
use touch_go_core.Prelude.{
  ℕ, zero, suc, ◌+◌, List, [], ◌∷◌, ◌++◌, Option, none, some, ◌==◌, if◌then◌else◌, ltb, leb, Bytes,
  codes, Bool, true, false, not, ◌&&◌, ◌||◌, map, length, get_elem?, ◌⊎◌, inl, inr,
}
use touch_go_core.Prelude.Int.{ℤ, pos}
use touch_go_core.Prelude.Ptr.{has}
use touch_go_core.Format.{Value, sprintf, decimal, text, time, real, number}

pub data EdbType : Type 0 where
  unset query query_count query_sum query_max insert_type update_type delete_type : EdbType

pub record Condition : Type 0 where
  pub types : EdbType
  pub table_name : Bytes
  pub cache_key : Bytes
  pub order_by : Bytes
  pub limit_to : Bytes
  pub group_by : Bytes
  pub where_sql : Bytes
  pub args : List Value
  pub filter : Bool
  pub values : Option (List (Bytes × Value))

abbrev pub zero_condition : Condition
zero_condition = record {
  types = unset;
  table_name = [];
  cache_key = [];
  order_by = [];
  limit_to = [];
  group_by = [];
  where_sql = [];
  args = [];
  filter = false;
  values = none;
}

abbrev pub is_empty : Bytes → Bool
is_empty [] = true
is_empty (x ∷ xs) = false

unfoldable pub eq_bytes : Bytes → Bytes → Bool
eq_bytes [] [] = true
eq_bytes [] (y ∷ ys) = false
eq_bytes (x ∷ xs) [] = false
eq_bytes (x ∷ xs) (y ∷ ys) = (x == y) && eq_bytes xs ys

abbrev pub back_quote : ℕ
back_quote = 96

abbrev pub dot : ℕ
dot = 46

abbrev pub space : ℕ
space = 32

unfoldable pub quote_key : Bytes → Bytes
quote_key key =
    if has back_quote key || has dot key then key else back_quote ∷ key ++ back_quote ∷ []

-- The operand of a filter, by its dynamic type: `anys` is `[]interface{}`, `ints` both `[]int` and
-- `[]int64`, and `one` all other values.
pub data Operand : Type 0 where
  one : Value → Operand
  anys : List Value → Operand
  texts : List Bytes → Operand
  ints : List ℤ → Operand
  reals : List Bytes → Operand

unfoldable pub place_of : Value → Bytes
place_of (text b) = codes "'?'"
place_of (time b) = codes "?"
place_of (real b) = codes "?"
place_of (number z) = codes "?"

-- The loop over a slice, with what it writes for one element.
unfoldable pub places : Bytes → ℕ → Bytes
places place zero = []
places place (suc zero) = place
places place (suc (suc n)) = place ++ codes "," ++ places place (suc n)

abbrev pub in_list : Bytes → Bytes → ℕ → Bytes
in_list word place n = codes " " ++ word ++ codes " (" ++ places place n ++ codes ")"

unfoldable pub operand_sql : Bytes → Operand → Bytes
operand_sql ex (one v) = codes " " ++ ex ++ codes " " ++ place_of v
operand_sql ex (anys vs) = in_list ex (codes "?") (length vs)
operand_sql ex (texts bs) = in_list (codes "in") (codes "'?'") (length bs)
operand_sql ex (ints zs) = in_list (codes "in") (codes "?") (length zs)
operand_sql ex (reals bs) = in_list (codes "in") (codes "?") (length bs)

unfoldable pub operand_args : Operand → List Value
operand_args (one v) = v ∷ []
operand_args (anys vs) = vs
operand_args (texts bs) = map text bs
operand_args (ints zs) = map number zs
operand_args (reals bs) = map real bs

unfoldable pub conjoin : Bytes → Bytes → Bytes
conjoin where_sql sql = if is_empty where_sql then sql else where_sql ++ codes " and " ++ sql

unfoldable pub set_filter_ex : Bytes → Bytes → Operand → Condition → Condition
set_filter_ex key ex val c = record c {
  filter = true;
  where_sql = conjoin c.where_sql (quote_key key ++ operand_sql ex val);
  args = c.args ++ operand_args val;
}

unfoldable pub set_filter : Bytes → Operand → Condition → Condition
set_filter key val c = set_filter_ex key (codes "=") val c

unfoldable pub get_sql : Condition → Bytes × List Value
get_sql c = (c.where_sql, c.args)

unfoldable pub disjoin : Bytes → Bytes → Bytes
disjoin where_sql sql =
    if is_empty where_sql
    then codes "(" ++ sql ++ codes ")"
    else where_sql ++ codes " or (" ++ sql ++ codes ")"

unfoldable pub set_filter_or : List Condition → Condition → Condition
set_filter_or [] c = c
set_filter_or (d ∷ ds) c =
    let (sql, args) = get_sql d in
    let merged = record c { where_sql = disjoin c.where_sql sql; args = c.args ++ args } in
    let skipped = set_filter_or ds c in
    let rest = set_filter_or ds merged in
    if not (eq_bytes c.table_name d.table_name)
      && not (is_empty d.table_name)
      && not (is_empty c.table_name)
    then skipped
    else rest

unfoldable pub set_table_name : Bytes → Condition → Condition
set_table_name name c = record c {
  table_name =
      if not (has back_quote name) && not (has dot name) && not (has space name)
      then back_quote ∷ name ++ back_quote ∷ []
      else name;
}

unfoldable pub order : Bytes → Condition → Condition
order o c = record c { order_by = o }

-- `strings.Join`.
unfoldable pub join : List Bytes → Bytes → Bytes
join [] sep = []
join (x ∷ []) sep = x
join (x ∷ y ∷ xs) sep = x ++ sep ++ join (y ∷ xs) sep

unfoldable pub limit : List ℤ → Condition → Condition
limit ls c = record c { limit_to = join (map decimal ls) (codes ",") }

unfoldable pub group : Bytes → Condition → Condition
group field c = record c { group_by = field }

unfoldable pub set_data_map : List (Bytes × Value) → Condition → Condition
set_data_map entries c = record c { values = some entries }

-- A write to a map: the place of an old key stays.
unfoldable pub put_entry : Bytes → Value → List (Bytes × Value) → List (Bytes × Value)
put_entry key v [] = (key, v) ∷ []
put_entry key v (e ∷ es) = if eq_bytes key e.0 then (key, v) ∷ es else e ∷ put_entry key v es

unfoldable pub set_data_map_by_one : Bytes → Value → Condition → Condition
set_data_map_by_one key v c = record c {
  values = some (put_entry key v (elim c.values [ none ↦ [] | some es ↦ es ]));
}

unfoldable pub set_db_type : EdbType → Condition → Condition
set_db_type tp c = record c { types = tp }

pub data QueryType : Type 0 where
  normal_query count_query sum_query max_query : QueryType

unfoldable pub keys_of : List (Bytes × Value) → List Bytes
keys_of es = map (λ (e : Bytes × Value). e.0) es

unfoldable pub select_from : QueryType → Bytes → Condition → Bytes
select_from normal_query row_name c = elim c.values [
  | none ↦ codes "select * from " ++ c.table_name
  | some es ↦ codes "select " ++ join (keys_of es) (codes ",") ++ codes " from " ++ c.table_name
]
select_from count_query row_name c = codes "select count(*) from " ++ c.table_name
select_from sum_query row_name c =
    codes "select sum(" ++ row_name ++ codes ") from " ++ c.table_name
select_from max_query row_name c =
    codes "select max(" ++ row_name ++ codes ") from " ++ c.table_name

unfoldable pub where_clause : Condition → Bytes
where_clause c = if c.filter then codes " where " ++ (get_sql c).0 else []

unfoldable pub where_args : Condition → List Value
where_args c = if c.filter then (get_sql c).1 else []

unfoldable pub clause : Bytes → Bytes → Bytes
clause word b = if is_empty b then [] else word ++ b

unfoldable pub tail_clauses : Condition → Bytes
tail_clauses c =
    clause (codes " group by ") c.group_by
    ++ clause (codes " order by ") c.order_by
    ++ clause (codes " limit ") c.limit_to

-- A statement is `none` when the source panics, and when `sprintf` is.
unfoldable pub get_query_statement : QueryType → Bytes → Option Condition → Option Bytes
get_query_statement etype row_name none = none
get_query_statement etype row_name (some c) =
    sprintf (select_from etype row_name c ++ where_clause c ++ tail_clauses c) (where_args c)

unfoldable pub values_of : List (Bytes × Value) → List Value
values_of es = map (λ (e : Bytes × Value). e.1) es

unfoldable pub insert_statement : Option Condition → Option Bytes
insert_statement none = none
insert_statement (some c) = elim c.values [
  | none ↦ none
  | some es ↦
      sprintf
        (codes "insert into "
          ++ c.table_name
          ++ codes " (`"
          ++ join (keys_of es) (codes "`,`")
          ++ codes "`) values ("
          ++ join (map (λ (e : Bytes × Value). place_of e.1) es) (codes ",")
          ++ codes ")")
        (values_of es)
]

unfoldable pub assignment : Bytes × Value → Bytes
assignment e = codes "`" ++ e.0 ++ codes "`=" ++ place_of e.1

unfoldable pub update_statement : Option Condition → Option Bytes
update_statement none = none
update_statement (some c) = elim c.values [
  | none ↦ none
  | some es ↦
      sprintf
        ((codes "update " ++ c.table_name ++ codes " set " ++ join (map assignment es) (codes ","))
          ++ where_clause c)
        (values_of es ++ where_args c)
]

unfoldable pub del_statement : Option Condition → Option Bytes
del_statement none = none
del_statement (some c) =
    let (sql, args) = get_sql c in
    sprintf (codes "delete from " ++ c.table_name ++ codes " where " ++ sql) args
