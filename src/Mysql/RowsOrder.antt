-- ===== src/Mysql/RowsOrder.antt =====
-- Next of db/mysql.go: the rows of a result in their order.
use mathlib.Core.List.{append_assoc}
use touch_go_core.Prelude.{
  ℕ, zero, suc, ◌<◌, List, [], ◌∷◌, ◌++◌, Option, none, some, ◌==◌, leb, ◌≡◌, refl, ap, ◌∙◌, arith,
  length, length-append, get_elem?, true, false,
}
use touch_go_core.Mysql.Rows.{Row, Rows, RowsError, next, get_all, at_end}

abbrev pub cons_row : Option Row → List Row → List Row
cons_row none xs = xs
cons_row (some x) xs = x ∷ xs

abbrev pub push_row :
    Option RowsError → Option Row → List Row × Option RowsError → List Row × Option RowsError
push_row none o rest = (cons_row o rest.0, rest.1)
push_row (some err) o rest = ([], some err)

-- A loop that asks for the next row until there is an error, with the rows it saw.
unfoldable pub collect : (fuel : ℕ) → Rows → List Row × Option RowsError
collect zero r = ([], none)
collect (suc k) r = let q = next r in push_row q.0 (q.1).row (collect k q.1)

abbrev at_row : List Row → ℕ → Row → Rows
at_row rs i x = record { row = some x; rows = some rs; row_index = i }

next_inside :
    (rs : List Row) (i : ℕ) (x y : Row)
    → get_elem? rs (suc i) ≡ some y
    → suc i < length rs
    → next (at_row rs i x) ≡ (none, at_row rs (suc i) y)
unfolding next
next_inside rs i x y h lt =
    let e : (length rs == 0) ≡ false = ground arith in
    let l : leb (length rs) (suc i) ≡ false = ground arith in rw (e, l, h)

next_end :
    (rs : List Row) (i : ℕ) (x : Row) → suc i ≡ length rs → (next (at_row rs i x)).0 ≡ some at_end
unfolding next
next_end rs i x h =
    let e : (length rs == 0) ≡ false = ground arith in
    let l : leb (length rs) (suc i) ≡ true = ground arith in rw (e, l)

collect_more :
    (k : ℕ) (r r' : Rows) (y : Row)
    → next r ≡ (none, r')
    → r'.row ≡ some y
    → collect (suc k) r ≡ (y ∷ (collect k r').0, (collect k r').1)
unfolding collect
collect_more k r r' y h e =
    ap (λ (q : Option RowsError × Rows). push_row q.0 (q.1).row (collect k q.1)) h
    ∙ ap (λ o. push_row none o (collect k r')) e

collect_stop :
    (k : ℕ) (r : Rows) (err : RowsError)
    → (next r).0 ≡ some err
    → collect (suc k) r ≡ ([], some err)
unfolding collect
collect_stop k r err h = ap (λ o. push_row o ((next r).1).row (collect k (next r).1)) h

first_row : (x : Row) (rs : List Row) → next (get_all (x ∷ rs)) ≡ (none, at_row (x ∷ rs) 0 x)
unfolding next get_all
first_row x rs = let e : (suc (length rs) == 0) ≡ false = ground arith in rw e

get_elem?-middle :
    (xs : List Row) (x y : Row) (ys : List Row)
    → get_elem? (xs ++ x ∷ y ∷ ys) (suc (length xs)) ≡ some y
get_elem?-middle [] x y ys = refl
get_elem?-middle (z ∷ xs) x y ys = get_elem?-middle xs x y ys

-- The rows behind the index.
collect-at_row :
    (fuel : ℕ) (before : List Row) (x : Row) (after : List Row)
    → length after < fuel
    → collect fuel (at_row (before ++ x ∷ after) (length before) x) ≡ (after, some at_end)
collect-at_row zero before x after h = absurd (omega arith)
collect-at_row (suc k) before x [] h =
    collect_stop k _ at_end
      (next_end (before ++ x ∷ []) (length before) x (omega (arith, length-append before (x ∷ []))))
collect-at_row (suc k) before x (y ∷ after) h =
    let rs = before ++ x ∷ y ∷ after in
    let here : at_row rs (suc (length before)) y
        ≡ at_row ((before ++ x ∷ []) ++ y ∷ after) (length (before ++ x ∷ [])) y =
      rw (append_assoc before (x ∷ []) (y ∷ after), length-append before (x ∷ []))
        (ap (λ n. at_row rs n y) (omega arith)) in
    let rest = ap (collect k) here ∙ collect-at_row k (before ++ x ∷ []) y after (omega arith) in
    collect_more k _ (at_row rs (suc (length before)) y) y
      (next_inside rs (length before) x y (get_elem?-middle before x y after)
        (omega (arith, length-append before (x ∷ y ∷ after))))
      refl
    ∙ rw rest

-- A loop over the rows of GetAll until Next gives an error ends, sees each row of a result that has
-- rows, in order, and stops with the error of the end.
pub collect-get_all :
    (rs : List Row) (fuel : ℕ)
    → 0 < length rs
    → length rs < fuel
    → collect fuel (get_all rs) ≡ (rs, some at_end)
collect-get_all [] fuel some_row h = absurd (omega arith)
collect-get_all (x ∷ rs) zero some_row h = absurd (omega arith)
collect-get_all (x ∷ rs) (suc k) some_row h =
    collect_more k (get_all (x ∷ rs)) (at_row (x ∷ rs) 0 x) x (first_row x rs) refl
    ∙ rw (collect-at_row k [] x rs (omega arith))
