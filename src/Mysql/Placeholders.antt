-- ===== src/Mysql/Placeholders.antt =====
-- SetFilterEx and SetFilterOr of db/mysql.go: each question mark of the filter has its argument.
use mathlib.Core.List.{append-nil, append_assoc}
use touch_go_core.Prelude.{
  ℕ, zero, suc, ◌+◌, List, [], ◌∷◌, ◌++◌, if◌then◌else◌, Bytes, codes, Bool, true, false, not, ◌&&◌,
  ◌≡◌, refl, sym, ap, ◌∙◌, ◌||◌, arith, length, length-append, length-map, Bool-cases, inl, inr,
}
use touch_go_core.Prelude.Ptr.{has}
use touch_go_core.Format.{Value, question_mark, text, time, real, number}
use touch_go_core.Format.Fill.{marks, marks-append, marks-Plain}
use touch_go_core.Mysql.{
  Condition, Operand, one, anys, texts, ints, reals, set_filter_ex, set_filter_or, get_sql, conjoin,
  disjoin, quote_key, operand_sql, operand_args, place_of, places, back_quote, dot, in_list,
  eq_bytes, is_empty,
}

abbrev pub Balanced : Condition → Type 0
Balanced c = marks c.where_sql ≡ length c.args

pub marks-place_of : (v : Value) → marks (place_of v) ≡ 1
unfolding marks place_of
marks-place_of (text b) = refl
marks-place_of (time b) = refl
marks-place_of (real b) = refl
marks-place_of (number z) = refl

comma_marks : marks (codes ",") ≡ 0
unfolding marks
comma_marks = refl

marks-places : (place : Bytes) (n : ℕ) → marks place ≡ 1 → marks (places place n) ≡ n
unfolding places marks
marks-places place zero h = refl
marks-places place (suc zero) h = h
marks-places place (suc (suc n)) h =
    rw
      (
        marks-append (place ++ codes ",") (places place (suc n)),
        marks-append place (codes ","),
        h,
        marks-places place (suc n) h,
      )
      (omega arith)

marks-quote_key : (key : Bytes) → has question_mark key ≡ false → marks (quote_key key) ≡ 0
unfolding quote_key marks
marks-quote_key key h = elim (Bool-cases (has back_quote key || has dot key)) [
  | inl e ↦ rw e (marks-Plain key h)
  | inr e ↦ rw (e, marks-append key (codes "`"), marks-Plain key h) (omega arith)
]

marks-list :
    (word place : Bytes) (n : ℕ)
    → has question_mark word ≡ false
    → marks place ≡ 1
    → marks (in_list word place n) ≡ n
unfolding marks
marks-list word place n h e =
    rw
      (
        marks-append (codes " " ++ word ++ codes " (" ++ places place n) (codes ")"),
        marks-append (codes " " ++ word ++ codes " (") (places place n),
        marks-append (codes " " ++ word) (codes " ("),
        marks-Plain word h,
        marks-places place n e,
      )
      (omega arith)

-- Around the places of a filter nothing is filled in.
marks-operand :
    (ex : Bytes) (v : Operand)
    → has question_mark ex ≡ false
    → marks (operand_sql ex v) ≡ length (operand_args v)
unfolding operand_sql operand_args marks
marks-operand ex (one v) h =
    rw
      (
        marks-append (codes " " ++ ex ++ codes " ") (place_of v),
        marks-append (codes " " ++ ex) (codes " "),
        marks-Plain ex h,
        marks-place_of v,
      )
      (omega arith)
marks-operand ex (anys vs) h = marks-list ex (codes "?") (length vs) h refl
marks-operand ex (texts bs) h =
    marks-list (codes "in") (codes "'?'") (length bs) refl refl ∙ sym (length-map bs text)
marks-operand ex (ints zs) h =
    marks-list (codes "in") (codes "?") (length zs) refl refl ∙ sym (length-map zs number)
marks-operand ex (reals bs) h =
    marks-list (codes "in") (codes "?") (length bs) refl refl ∙ sym (length-map bs real)

marks-conjoin : (w sql : Bytes) → marks (conjoin w sql) ≡ marks w + marks sql
unfolding conjoin marks
marks-conjoin [] sql = omega arith
marks-conjoin (x ∷ w) sql =
    marks-append (x ∷ w ++ codes " and ") sql
    ∙ ap (λ n. n + marks sql) (marks-append (x ∷ w) (codes " and ") ∙ omega arith)

marks-disjoin : (w sql : Bytes) → marks (disjoin w sql) ≡ marks w + marks sql
unfolding disjoin marks
marks-disjoin [] sql = rw (marks-append (codes "(" ++ sql) (codes ")")) (omega arith)
marks-disjoin (x ∷ w) sql = omega (
  arith,
  marks-append (x ∷ w ++ codes " or (" ++ sql) (codes ")"),
  marks-append (x ∷ w ++ codes " or (") sql,
  marks-append (x ∷ w) (codes " or ("),
  or_marks,
  bracket_marks,
)
  where
    or_marks : marks (codes " or (") ≡ 0
    or_marks = refl

    bracket_marks : marks (codes ")") ≡ 0
    bracket_marks = refl

-- A filter whose key and operator hold no question mark keeps one argument for each question mark of
-- the condition, for each type of value and whatever the value holds.
pub set_filter_ex-Balanced :
    (key ex : Bytes) (v : Operand) (c : Condition)
    → has question_mark key ≡ false
    → has question_mark ex ≡ false
    → Balanced c
    → Balanced (set_filter_ex key ex v c)
unfolding set_filter_ex
set_filter_ex-Balanced key ex v c hk he h = omega (
  arith,
  marks-conjoin c.where_sql (quote_key key ++ operand_sql ex v),
  marks-append (quote_key key) (operand_sql ex v),
  marks-quote_key key hk,
  marks-operand ex v he,
  length-append c.args (operand_args v),
  h,
)

abbrev pub AllBalanced : List Condition → Type 0
AllBalanced [] = Unit {0}
AllBalanced (d ∷ ds) = Balanced d × AllBalanced ds

-- The conditions on the table `name`, and all conditions when a table is not set.
unfoldable pub of_table : Bytes → List Condition → List Condition
of_table name [] = []
of_table name (d ∷ ds) =
    let rest = of_table name ds in
    if eq_bytes name d.table_name || is_empty d.table_name || is_empty name then d ∷ rest else rest

unfoldable pub bracketed : Bytes → Bytes → Bytes
bracketed [] sql = codes "(" ++ sql ++ codes ")"
bracketed (x ∷ w) sql = x ∷ w ++ codes " or (" ++ sql ++ codes ")"

-- A text with those of further conditions in brackets behind it.
unfoldable pub or_all : Bytes → List Condition → Bytes
or_all w [] = w
or_all w (d ∷ ds) = or_all (bracketed w d.where_sql) ds

unfoldable pub args_of : List Condition → List Value
args_of [] = []
args_of (d ∷ ds) = d.args ++ args_of ds

merged-Balanced :
    (ds : List Condition) (c : Condition)
    → Balanced c
    → AllBalanced ds
    → Balanced (set_filter_or ds c)
unfolding set_filter_or get_sql
merged-Balanced [] c h all = h
merged-Balanced (d ∷ ds) c h all =
    let merged = record c {
      where_sql = disjoin c.where_sql d.where_sql;
      args = c.args ++ d.args;
    } in
    let h' : Balanced merged =
      omega (arith, marks-disjoin c.where_sql d.where_sql, length-append c.args d.args, h, all.0) in
    either _ _ _ (merged-Balanced ds c h all.1) (merged-Balanced ds merged h' all.1)
  where
    either : (b : Bool) (x y : Condition) → Balanced x → Balanced y → Balanced (if b then x else y)
    either true x y p q = p
    either false x y p q = q

disjoin-bracketed : (w sql : Bytes) → disjoin w sql ≡ bracketed w sql
unfolding disjoin bracketed
disjoin-bracketed [] sql = refl
disjoin-bracketed (x ∷ w) sql = refl

either_kept :
    (a b e : Bool) (x y : Condition) (w : Bytes) (vs : List Value) (d : Condition)
    (ks : List Condition)
    → (x.where_sql ≡ or_all w ks) × (x.args ≡ vs ++ args_of ks)
    → (y.where_sql ≡ or_all w (d ∷ ks)) × (y.args ≡ vs ++ args_of (d ∷ ks))
    → let r = if not a && not b && not e then x else y in
      let kept = if a || b || e then d ∷ ks else ks in
      (r.where_sql ≡ or_all w kept) × (r.args ≡ vs ++ args_of kept)
either_kept true b e x y w vs d ks p q = q
either_kept false true e x y w vs d ks p q = q
either_kept false false true x y w vs d ks p q = q
either_kept false false false x y w vs d ks p q = p

set_filter_or-of_table :
    (ds : List Condition) (c : Condition)
    → ((set_filter_or ds c).where_sql ≡ or_all c.where_sql (of_table c.table_name ds))
      × ((set_filter_or ds c).args ≡ c.args ++ args_of (of_table c.table_name ds))
unfolding set_filter_or get_sql of_table args_of or_all
set_filter_or-of_table [] c = (refl, sym (append-nil c.args))
set_filter_or-of_table (d ∷ ds) c =
    let merged = record c {
      where_sql = disjoin c.where_sql d.where_sql;
      args = c.args ++ d.args;
    } in
    let skipped = set_filter_or-of_table ds c in
    let rest = set_filter_or-of_table ds merged in
    either_kept (eq_bytes c.table_name d.table_name) (is_empty d.table_name) (is_empty c.table_name)
      (set_filter_or ds c) (set_filter_or ds merged) c.where_sql c.args d (of_table c.table_name ds)
      skipped
      (
        rest.0
            ∙ ap (λ w. or_all w (of_table c.table_name ds))
                (disjoin-bracketed c.where_sql d.where_sql),
        rest.1 ∙ append_assoc c.args d.args (args_of (of_table c.table_name ds)),
      )

-- SetFilterOr appends, in order, the text in brackets and the arguments of just those conditions that
-- are on the same table or where one of the two tables is not set. When the conditions have one
-- argument for each question mark, so has the result.
pub set_filter_or-Balanced :
    (ds : List Condition) (c : Condition)
    → Balanced c
    → AllBalanced ds
    → ((set_filter_or ds c).where_sql ≡ or_all c.where_sql (of_table c.table_name ds))
      × ((set_filter_or ds c).args ≡ c.args ++ args_of (of_table c.table_name ds))
      × Balanced (set_filter_or ds c)
set_filter_or-Balanced ds c h all =
    let (w, a) = set_filter_or-of_table ds c in (w, a, merged-Balanced ds c h all)
