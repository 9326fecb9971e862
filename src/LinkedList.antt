-- ===== src/LinkedList.antt =====
-- list/list.go and list/node.go: a doubly linked list whose nodes know their list, with removals
-- that wait while the list is traversed. One thread at a time: the mutexes are not modelled.
pub mod Chain
pub mod Unlink
pub mod Append
pub mod Refinement
pub mod Insert
pub mod InsertAfter
pub mod InsertBefore
pub mod InsertRefinement
pub mod Traversal
pub mod Search
pub mod Removal
pub mod Tests
pub mod Clear
use mathlib.Core.Option
use touch_go_core.Prelude.{
  ℕ, zero, suc, ◌+◌, Bool, true, false, ◌||◌, Option, none, some, List, [], ◌∷◌, ◌++◌, ltb, ◌==◌,
  if◌then◌else◌,
}
use touch_go_core.Prelude.Int.{ℤ, pos, ◌+ℤ◌, ◌-ℤ◌}
use touch_go_core.Prelude.Ptr.{Ptr, null, update}

-- `value` is the field `data`, an opaque token, and `node_type` the prototype of the dynamic type.
pub record ListNode : Type 0 where
  pub id : ℕ
  pub pre : Ptr
  pub next : Ptr
  pub value : ℕ
  pub list : Ptr
  pub node_type : Ptr

-- The struct `List`.
pub record Header : Type 0 where
  pub head : Ptr
  pub tail : Ptr
  pub len : ℤ
  pub range_del_list : List Ptr
  pub dellock : Bool
  pub next_id : ℕ

pub record Store : Type 0 where
  pub nodes : Ptr → ListNode
  pub lists : Ptr → Header

abbrev pub new_list : Header
new_list = record {
  head = null;
  tail = null;
  len = pos 0;
  range_del_list = [];
  dellock = false;
  next_id = 0;
}

-- One field assignment each.
abbrev pub put_node : Ptr → ListNode → Store → Store
put_node p v s = record s { nodes = update s.nodes p v }

abbrev pub put_list : Ptr → Header → Store → Store
put_list l v s = record s { lists = update s.lists l v }

abbrev pub set_next : Ptr → Ptr → Store → Store
set_next p q s = put_node p (record (s.nodes p) { next = q }) s

abbrev pub set_pre : Ptr → Ptr → Store → Store
set_pre p q s = put_node p (record (s.nodes p) { pre = q }) s

abbrev pub set_head : Ptr → Ptr → Store → Store
set_head l q s = put_list l (record (s.lists l) { head = q }) s

abbrev pub set_tail : Ptr → Ptr → Store → Store
set_tail l q s = put_list l (record (s.lists l) { tail = q }) s

abbrev pub set_dellock : Ptr → Bool → Store → Store
set_dellock l b s = put_list l (record (s.lists l) { dellock = b }) s

-- The ID for the time `now`, in nanoseconds. With one thread the compare-and-swap succeeds at once.
unfoldable pub next_id : ℕ → ℕ → ℕ
next_id old now = if old == 0 || ltb (now + 1) old then now + 1 else old + 1

unfoldable pub generate_next_id : Ptr → ℕ → Store → ℕ × Store
unfolding next_id
generate_next_id l now s =
    let fresh_id = next_id (s.lists l).next_id now in
    (fresh_id, put_list l (record (s.lists l) { next_id = fresh_id }) s)

-- `removeNodeLocked`: the neighbours, or the ends of the list, skip the node.
unfoldable pub relink_pre : Ptr → Ptr → Store → Store
relink_pre l n s =
    let node = s.nodes n in
    if node.pre == null then set_head l node.next s else set_next node.pre node.next s

unfoldable pub relink_next : Ptr → Ptr → Store → Store
relink_next l n s =
    let node = s.nodes n in
    if node.next == null then set_tail l node.pre s else set_pre node.next node.pre s

unfoldable pub clear_node : Ptr → Store → Store
clear_node n s = put_node n (record (s.nodes n) { list = null; pre = null; next = null; id = 0 }) s

unfoldable pub count_down : Ptr → Store → Store
count_down l s = put_list l (record (s.lists l) { len = (s.lists l).len -ℤ pos 1 }) s

unfoldable pub remove_node_locked : Ptr → Ptr → Store → Store
unfolding relink_pre relink_next clear_node count_down
remove_node_locked l n s =
    if (s.nodes n).list == l
    then clear_node n (count_down l (relink_next l n (relink_pre l n s)))
    else s

-- `Remove`: during a traversal the node is only noted.
unfoldable pub remove : Ptr → Store → Store
remove n s =
    let l = (s.nodes n).list in
    if l == null
    then s
    else if (s.lists l).dellock
    then put_list l (record (s.lists l) { range_del_list = (s.lists l).range_del_list ++ n ∷ [] }) s
    else remove_node_locked l n s

-- The fields that `Add` sets before it links the node.
unfoldable pub adopt : Ptr → Ptr → ℕ → Store → Store
unfolding generate_next_id
adopt l n now s =
    let (fresh_id, s') = generate_next_id l now s in
    let node = s'.nodes n in
    put_node n
      (record node {
        node_type = if node.node_type == null then n else node.node_type;
        id = fresh_id;
        list = l;
        pre = null;
        next = null;
      })
      s'

unfoldable pub count_up : Ptr → Store → Store
count_up l s = put_list l (record (s.lists l) { len = (s.lists l).len +ℤ pos 1 }) s

-- The new link. A list with a head and no tail makes the code panic, which `Add` turns to false.
unfoldable pub link_last : Ptr → Ptr → Store → Bool × Store
unfolding count_up
link_last l n s =
    let header = s.lists l in
    if header.head == null
    then (true, count_up l (set_tail l n (set_head l n s)))
    else if header.tail == null
    then (false, s)
    else (true, count_up l (set_tail l n (set_pre n header.tail (set_next header.tail n s))))

unfoldable pub add : Ptr → Ptr → ℕ → Store → Bool × Store
add l n now s = if n == null then (false, s) else link_last l n (adopt l n now (remove n s))

abbrev pub zero_node : ListNode
zero_node = record { id = 0; pre = null; next = null; value = 0; list = null; node_type = null }

-- `new`: a node of the dynamic type of `n`, at the address `fresh` that the allocation returns.
unfoldable pub new_like : (fresh n : Ptr) → Store → Ptr × Store
new_like fresh n s =
    let kind = (s.nodes n).node_type in
    if kind == null
    then (null, s)
    else (fresh, put_node fresh (record zero_node { node_type = kind }) s)

-- `NewNode`: with no prototype the node is a plain `ListNode`, and its own prototype.
unfoldable pub new_node : (fresh : Ptr) → ℕ → (node_type : Ptr) → Store → Ptr × Store
new_node fresh value node_type s = (
  fresh,
  put_node fresh
      (record zero_node {
        value = value;
        node_type = if node_type == null then fresh else node_type;
      })
      s,
)

-- The fields of an inserted node.
unfoldable pub settle : (p l pre next : Ptr) → ℕ → ℕ → Store → Store
unfolding generate_next_id
settle p l pre' next' value' now s =
    let (fresh_id, s') = generate_next_id l now s in
    put_node p
      (record (s'.nodes p) { id = fresh_id; pre = pre'; next = next'; value = value'; list = l }) s'

-- The links of the neighbours to a node `p` inserted behind `n`, or before it.
unfoldable pub link_after : (l n p : Ptr) → Store → Store
unfolding count_up
link_after l n p s =
    let after = (s.nodes n).next in
    count_up l (set_next n p (if after == null then set_tail l p s else set_pre after p s))

unfoldable pub link_before : (l n p : Ptr) → Store → Store
unfolding count_up
link_before l n p s =
    let before = (s.nodes n).pre in
    count_up l (set_pre n p (if before == null then set_head l p s else set_next before p s))

-- Outside a list `n.list.mu` panics, and the recovery returns nil.
unfoldable pub insert_after : (fresh n : Ptr) → ℕ → ℕ → Store → Ptr × Store
insert_after fresh n value now s =
    let (p, s1) = new_like fresh n s in
    let l = (s1.nodes n).list in
    if p == null || l == null
    then (null, s1)
    else (p, link_after l n p (settle p l n (s1.nodes n).next value now s1))

unfoldable pub insert_before : (fresh n : Ptr) → ℕ → ℕ → Store → Ptr × Store
insert_before fresh n value now s =
    let (p, s1) = new_like fresh n s in
    let l = (s1.nodes n).list in
    if p == null || l == null
    then (null, s1)
    else (p, link_before l n p (settle p l (s1.nodes n).pre n value now s1))

-- What `Range` does when it ends: the noted nodes go, and the lock is released.
unfoldable pub remove_all : Ptr → List Ptr → Store → Store
remove_all l [] s = s
remove_all l (n ∷ ns) s = remove_all l ns (if n == null then s else remove_node_locked l n s)

unfoldable pub end_range : Ptr → Store → Store
end_range l s =
    let s2 = remove_all l (s.lists l).range_del_list (set_dellock l false s) in
    put_list l (record (s2.lists l) { range_del_list = [] }) s2

-- A callback of `Range`, with the variables `c` that its closure writes.
abbrev pub Callback : Type 0 → Type 0
Callback C = Ptr → C → Store → Bool × C × Store

-- The loop of `Range`, on fuel: `none` is a traversal that has not ended.
unfoldable pub range_loop : {C : Type 0} → ℕ → Callback C → Ptr → C → Store → Option (C × Store)
range_loop zero f p c s = none
range_loop (suc k) f p c s =
    if p == null
    then some (c, s)
    else let (more, c', s') = f p c s in
      let rest = range_loop k f (s'.nodes p).next c' s' in if more then rest else some (c', s')

unfoldable pub range : {C : Type 0} → ℕ → Ptr → Callback C → C → Store → Option (C × Store)
range {C} fuel l f c s =
    let s1 = set_dellock l true s in
    Option.map (λ (r : C × Store). (r.0, end_range l r.1))
      (range_loop fuel f (s1.lists l).head c s1)

-- `Get` is a traversal that stops at the ID.
unfoldable pub get_callback : ℕ → Callback Ptr
get_callback id p found s = if (s.nodes p).id == id then (false, p, s) else (true, found, s)

unfoldable pub get : ℕ → Ptr → ℕ → Store → Option (Ptr × Store)
get fuel l id s = range fuel l (get_callback id) null s

unfoldable pub clear_loop : ℕ → Ptr → Ptr → Store → Option Store
clear_loop zero l p s = none
clear_loop (suc k) l p s =
    let after = (s.nodes p).next in
    let rest = clear_loop k l after (remove_node_locked l p s) in if p == null then some s else rest

abbrev pub reset_list : Ptr → Store → Store
reset_list l s =
    put_list l (record (s.lists l) { head = null; tail = null; len = pos 0; range_del_list = [] }) s

unfoldable pub clear : ℕ → Ptr → Store → Option Store
clear fuel l s = Option.map (reset_list l) (clear_loop fuel l (s.lists l).head s)
