-- ===== src/Mysql/Statements.antt =====
-- The statements of db/mysql.go: which argument stands at which place of the text that is sent.
use mathlib.Core.List.{append-nil, append_assoc}
use touch_go_core.Prelude.{
  List, [], ◌∷◌, ◌++◌, some, if◌then◌else◌, Bytes, codes, Bool, true, false, ◌≡◌, refl, ap, ◌∙◌,
  arith, map, length, length-map, Bool-cases, inl, inr,
}
use touch_go_core.Prelude.Ptr.{has-append}
use touch_go_core.Format.{
  Value, fill, sprintf, render, quoted, decimal, question_mark, percent, text, time, real, number,
}
use touch_go_core.Format.Fill.{
  marks, marks-append, marks-Plain, fill-append, fill-Plain, both, Plain,
}
use touch_go_core.Mysql.{
  Condition, set_filter_or, get_sql, place_of, assignment, join, values_of, where_clause,
  where_args, update_statement, set_data_map,
}
use touch_go_core.Mysql.Placeholders.{marks-place_of}

-- How a value appears in a statement: the quotes of `place_of` stand around those of `render`.
unfoldable pub placed : Value → Bytes
placed (text b) = codes "''" ++ b ++ codes "''"
placed (time b) = codes "'" ++ b ++ codes "'"
placed (real b) = b
placed (number z) = decimal z

fill-place_of : (v : Value) → fill (place_of v) (v ∷ []) ≡ some (placed v)
unfolding fill place_of placed render quoted
fill-place_of (text b) =
    ap (λ (r : Bytes). some (codes "''" ++ r)) (append_assoc b (codes "'") (codes "'"))
fill-place_of (time b) = rw append-nil
fill-place_of (real b) = rw append-nil
fill-place_of (number z) = rw append-nil

-- `key` = value, with the value in its place.
unfoldable pub assigned : Bytes × Value → Bytes
assigned e = codes "`" ++ e.0 ++ codes "`=" ++ placed e.1

abbrev pub PlainKeys : List (Bytes × Value) → Type 0
PlainKeys [] = Unit {0}
PlainKeys (e ∷ es) = Plain e.0 × PlainKeys es

-- A plain text in front of a text with places.
fill-prefix :
    (a b : Bytes) (xs : List Value) → Plain a → fill (a ++ b) xs ≡ both (some a) (fill b xs)
fill-prefix a b xs h =
    fill-append a b [] xs (marks-Plain a h.0) ∙ ap (λ o. both o (fill b xs)) (fill-Plain a [] h)

Plain-key : (key : Bytes) → Plain key → Plain (codes "`" ++ key ++ codes "`=")
Plain-key key h = (
  rw (has-append question_mark key (codes "`="), h.0),
  rw (has-append percent key (codes "`="), h.1),
)

fill-assignment :
    (e : Bytes × Value) → Plain e.0 → fill (assignment e) (e.1 ∷ []) ≡ some (assigned e)
unfolding assignment assigned
fill-assignment e h =
    fill-prefix (codes "`" ++ e.0 ++ codes "`=") (place_of e.1) (e.1 ∷ []) (Plain-key e.0 h)
    ∙ ap (both (some (codes "`" ++ e.0 ++ codes "`="))) (fill-place_of e.1)

marks-assignment : (e : Bytes × Value) → Plain e.0 → marks (assignment e) ≡ 1
unfolding assignment
marks-assignment e h =
    rw
      (
        marks-append (codes "`" ++ e.0 ++ codes "`=") (place_of e.1),
        marks-Plain _ (Plain-key e.0 h).0,
        marks-place_of e.1,
      )
      (omega arith)

-- The assignments of an Update: each column gets its own value.
fill-join :
    (es : List (Bytes × Value))
    → PlainKeys es
    → (fill (join (map assignment es) (codes ",")) (values_of es)
        ≡ some (join (map assigned es) (codes ",")))
      × (marks (join (map assignment es) (codes ",")) ≡ length es)
unfolding join values_of
fill-join [] h = (fill-Plain [] [] (refl, refl), marks-Plain [] refl)
fill-join (e ∷ []) h = (fill-assignment e h.0, marks-assignment e h.0)
fill-join (e ∷ f ∷ es) h =
    let (filled, counted) = fill-join (f ∷ es) h.1 in
    let rest = join (map assignment (f ∷ es)) (codes ",") in
    let first_marks = with_comma_marks e h.0 in
    (
      fill-append (assignment e ++ codes ",") rest (e.1 ∷ []) (values_of (f ∷ es)) first_marks
          ∙ rw (with_comma e h.0, filled),
      marks-append (assignment e ++ codes ",") rest ∙ rw (first_marks, counted) (omega arith),
    )
  where
    with_comma :
        (e : Bytes × Value)
        → Plain e.0
        → fill (assignment e ++ codes ",") (e.1 ∷ []) ≡ some (assigned e ++ codes ",")
    with_comma e h =
        fill-append (assignment e) (codes ",") (e.1 ∷ []) [] (marks-assignment e h)
        ∙ rw (fill-assignment e h, fill-Plain (codes ",") [] (refl, refl))

    with_comma_marks : (e : Bytes × Value) → Plain e.0 → marks (assignment e ++ codes ",") ≡ 1
    with_comma_marks e h =
        marks-append (assignment e) (codes ",")
        ∙ rw (marks-assignment e h, marks-Plain (codes ",") refl) (omega arith)

Plain-update : (table : Bytes) → Plain table → Plain (codes "update " ++ table ++ codes " set ")
Plain-update table h = (
  rw (has-append question_mark table (codes " set "), h.0),
  rw (has-append percent table (codes " set "), h.1),
)

fill_where :
    (c : Condition)
    → fill (where_clause c) (where_args c)
      ≡ (if c.filter then fill (codes " where " ++ c.where_sql) c.args else some [])
unfolding where_clause where_args get_sql fill
fill_where c = elim (Bool-cases (c.filter)) [ inl e ↦ rw e refl | inr e ↦ rw e refl ]

-- Update with at least one value, on a table and columns whose names hold no question mark and no
-- percent sign: each column is set to its own value. Behind that stands, when the condition has a
-- filter, `where` and the text of the filter filled with its arguments, and nothing when it has none,
-- whatever the values hold. A text stands in two pairs of quotes.
pub update_statement-assigned :
    (e : Bytes × Value) (es : List (Bytes × Value)) (c : Condition)
    → Plain c.table_name
    → PlainKeys (e ∷ es)
    → update_statement (some (set_data_map (e ∷ es) c))
      ≡ both
          (some (
            codes "update "
            ++ c.table_name
            ++ codes " set "
            ++ join (map assigned (e ∷ es)) (codes ",")))
          (if c.filter then fill (codes " where " ++ c.where_sql) c.args else some [])
unfolding update_statement sprintf set_data_map values_of where_clause where_args get_sql
update_statement-assigned e es c table keys =
    let head = codes "update " ++ c.table_name ++ codes " set " in
    let sets = join (map assignment (e ∷ es)) (codes ",") in
    let (filled, counted) = fill-join (e ∷ es) keys in
    let head_marks = marks-Plain head (Plain-update c.table_name table).0 in
    let all_marks : marks (head ++ sets) ≡ length (values_of (e ∷ es)) =
      marks-append head sets
      ∙ rw (head_marks, counted, length-map es (λ (q : Bytes × Value). q.1)) (omega arith) in
    fill-append (head ++ sets) (where_clause c) (values_of (e ∷ es)) (where_args c) all_marks
    ∙ ap (λ o. both o (fill (where_clause c) (where_args c)))
        (fill-prefix head sets (values_of (e ∷ es)) (Plain-update c.table_name table)
          ∙ ap (both (some head)) filled)
    ∙ ap (both (some (head ++ join (map assigned (e ∷ es)) (codes ",")))) (fill_where c)

set_filter_or-filter :
    (ds : List Condition) (c : Condition) → (set_filter_or ds c).filter ≡ c.filter
unfolding set_filter_or get_sql
set_filter_or-filter [] c = refl
set_filter_or-filter (d ∷ ds) c =
    either _ _ _ _ (set_filter_or-filter ds c) (set_filter_or-filter ds _)
  where
    either :
        (b : Bool) (x y : Condition) (v : Bool)
        → x.filter ≡ v
        → y.filter ≡ v
        → (if b then x else y).filter ≡ v
    either true x y v p q = p
    either false x y v p q = q

set_filter_or-table :
    (ds : List Condition) (c : Condition) → (set_filter_or ds c).table_name ≡ c.table_name
unfolding set_filter_or get_sql
set_filter_or-table [] c = refl
set_filter_or-table (d ∷ ds) c =
    either _ _ _ _ (set_filter_or-table ds c) (set_filter_or-table ds _)
  where
    either :
        (b : Bool) (x y : Condition) (v : Bytes)
        → x.table_name ≡ v
        → y.table_name ≡ v
        → (if b then x else y).table_name ≡ v
    either true x y v p q = p
    either false x y v p q = q

no_where : (c : Condition) → c.filter ≡ false → (where_clause c ≡ []) × (where_args c ≡ [])
unfolding where_clause where_args
no_where c h = rw h (refl, refl)

-- Conditions that SetFilterOr merges into a condition with no filter of its own do not restrict an
-- Update: its statement is the one without them, which has no where clause.
pub update_statement-set_filter_or :
    (ds : List Condition) (c : Condition) (es : List (Bytes × Value))
    → c.filter ≡ false
    → update_statement (some (set_data_map es (set_filter_or ds c)))
      ≡ update_statement (some (set_data_map es c))
unfolding update_statement set_data_map where_clause where_args get_sql
update_statement-set_filter_or ds c es h =
    rw (set_filter_or-table ds c, set_filter_or-filter ds c, h)
