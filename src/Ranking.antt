-- ===== src/Ranking.antt =====
-- ranking/ranking.go: the skip list, on a heap of nodes and a heap of rank infos. A 32-bit number is
-- its bit pattern; a search runs on fuel for the steps at one level, and `none` is also a panic.
pub mod Walk
pub mod Tree
pub mod Trees
pub mod Lookup
pub mod ByRank
pub mod Levels
pub mod LevelLoop
pub mod Splice
pub mod Raise
pub mod Shape
pub mod Lower
pub mod Grown
pub mod Insert
pub mod Remove
pub mod Descent
pub mod Link
pub mod Unlink
mod Tests
use mathlib.Core.Option
use touch_go_core.Prelude.{
  ℕ, zero, suc, ◌+◌, ◌-◌, ◌%◌, ◌^◌, List, [], ◌∷◌, ◌++◌, Option, none, some, ◌==◌, if◌then◌else◌,
  ltb, leb, Bool, true, false, not, ◌&&◌, ◌||◌, length, get_elem?, set, replicate, ◌>>=◌, ◌⊎◌, inl,
  inr,
}
use touch_go_core.Prelude.Int.{ℤ, pos, negsuc, ltb_ℤ, eq_ℤ}
use touch_go_core.Prelude.Ptr.{Ptr, null, update}

abbrev pub skip_list_max_level : ℕ
skip_list_max_level = 32

abbrev pub word : ℕ
word = 4294967296

unfoldable pub add_32 : ℕ → ℕ → ℕ
add_32 a b = (a + b) % word

unfoldable pub sub_32 : ℕ → ℕ → ℕ
sub_32 a b = (a + (word - b)) % word

-- The signed order of two bit patterns.
unfoldable pub gt_32 : ℕ → ℕ → Bool
gt_32 a b = ltb ((b + 2147483648) % word) ((a + 2147483648) % word)

-- The bit pattern of -1.
abbrev pub minus_one : ℕ
minus_one = 4294967295

pub record RankInfo : Type 0 where
  pub id : ℤ
  pub value : ℤ
  pub rank : ℕ
  pub timestamp : ℤ

pub record SkipListLevel : Type 0 where
  pub forward : Ptr
  pub span : ℕ

pub record SkipListNode : Type 0 where
  pub key : ℤ
  pub info : Ptr
  pub levels : List SkipListLevel

-- The heaps with the fields of the one `SkipList` in them.
pub record SkipList : Type 0 where
  pub nodes : Ptr → SkipListNode
  pub infos : Ptr → RankInfo
  pub header : Ptr
  pub tail : Ptr
  pub length_32 : ℕ
  pub level : ℕ

abbrev pub zero_level : SkipListLevel
zero_level = record { forward = null; span = 0 }

unfoldable pub new_skip_list_node : ℕ → ℤ → Ptr → SkipListNode
new_skip_list_node level key info = record {
  key = key;
  info = info;
  levels = replicate level zero_level;
}

-- The header is made at the address `header`.
unfoldable pub new_skip_list : (header : Ptr) → (Ptr → SkipListNode) → (Ptr → RankInfo) → SkipList
new_skip_list header nodes infos = record {
  nodes = update nodes header (new_skip_list_node skip_list_max_level (negsuc 0) null);
  infos = infos;
  header = header;
  tail = null;
  length_32 = 0;
  level = 1;
}

-- Each draw tells whether `Float32` is below the probability.
unfoldable pub raise_level : ℕ → ℕ → (ℕ → Bool) → ℕ
raise_level zero lvl draws = lvl
raise_level (suc n) lvl draws =
    let higher = raise_level n (suc lvl) draws in if draws lvl then higher else lvl

unfoldable pub random_level : (ℕ → Bool) → ℕ
random_level draws = raise_level (skip_list_max_level - 1) 1 draws

-- Of two entries with the same key.
unfoldable pub older : RankInfo → RankInfo → Bool
older a b = ltb_ℤ a.timestamp b.timestamp || (eq_ℤ a.timestamp b.timestamp && ltb_ℤ a.id b.id)

-- The test of the inner loops: the node stands before the place of the key and the info.
unfoldable pub goes_before : SkipList → Ptr → ℤ → RankInfo → Bool
goes_before sl p key info =
    let node = sl.nodes p in
    if ltb_ℤ key node.key
    then true
    else if ltb_ℤ node.key key
    then false
    else older (sl.infos node.info) info

unfoldable pub level_of : SkipList → Ptr → ℕ → Option SkipListLevel
level_of sl p i = get_elem? (sl.nodes p).levels i

-- The loop at one level. The searches that need no rank drop it.
unfoldable pub walk_level : (fuel : ℕ) → SkipList → ℕ → ℤ → RankInfo → Ptr → ℕ → Option (Ptr × ℕ)
walk_level zero sl i key info x rank = none
walk_level (suc k) sl i key info x rank = do
  l ← level_of sl x i
  let further = walk_level k sl i key info l.forward (add_32 rank l.span)
  if l.forward == null
      then some (x, rank)
      else if goes_before sl l.forward key info
      then further
      else some (x, rank)

-- The loop over the levels, from `level - 1` down to 0: where it stopped at each, the lowest first.
unfoldable pub descend :
    (fuel level : ℕ) → SkipList → ℤ → RankInfo → Ptr → ℕ → Option (List (Ptr × ℕ))
descend fuel zero sl key info x rank = some []
descend fuel (suc i) sl key info x rank = do
  stop ← walk_level fuel sl i key info x rank
  lower ← descend fuel i sl key info stop.0 stop.1
  some (lower ++ stop ∷ [])

abbrev pub lowest : Ptr → List (Ptr × ℕ) → Ptr × ℕ
lowest header [] = (header, 0)
lowest header (s ∷ ss) = s

unfoldable pub found : SkipList → Ptr → ℤ → RankInfo → Bool
found sl p key info =
    let node = sl.nodes p in
    let entry = sl.infos node.info in
    not (p == null)
    && eq_ℤ node.key key
    && eq_ℤ entry.timestamp info.timestamp
    && eq_ℤ entry.id info.id

-- What `search`, `rank` and `remove` look at behind the descent: the next node, and the rank.
unfoldable pub candidate : (fuel : ℕ) → SkipList → ℤ → RankInfo → Option (Ptr × ℕ)
candidate fuel sl key info = do
  trace ← descend fuel sl.level sl key info sl.header 0
  let stop = lowest sl.header trace
  l ← level_of sl stop.0 0
  some (l.forward, stop.1)

unfoldable pub search : (fuel : ℕ) → SkipList → ℤ → RankInfo → Option Bool
search fuel sl key info =
    Option.map (λ (c : Ptr × ℕ). found sl c.0 key info) (candidate fuel sl key info)

unfoldable pub rank_of : (fuel : ℕ) → SkipList → ℤ → RankInfo → Option ℕ
rank_of fuel sl key info =
    Option.map (λ (c : Ptr × ℕ). if found sl c.0 key info then c.1 else minus_one)
      (candidate fuel sl key info)

abbrev pub put_node : Ptr → SkipListNode → SkipList → SkipList
put_node p n sl = record sl { nodes = update sl.nodes p n }

abbrev pub put_level : Ptr → ℕ → SkipListLevel → SkipList → SkipList
put_level p i l sl = put_node p (record (sl.nodes p) { levels = set (sl.nodes p).levels i l }) sl

-- The levels that only the new node reaches start at the header, whose span there is the length.
unfoldable pub raise_header : (count i : ℕ) → SkipList → Option (List (Ptr × ℕ) × SkipList)
raise_header zero i sl = some ([], sl)
raise_header (suc n) i sl = do
  l ← level_of sl sl.header i
  rest ← raise_header n (suc i) (put_level sl.header i (record l { span = sl.length_32 }) sl)
  some ((sl.header, 0) ∷ rest.0, rest.1)

-- The new node `p` between `u` and its next node, at one level after the other.
unfoldable pub link_levels : ℕ → (rank_0 : ℕ) → Ptr → List (Ptr × ℕ) → SkipList → Option SkipList
link_levels i rank_0 p [] sl = some sl
link_levels i rank_0 p (u ∷ us) sl = do
  l ← level_of sl u.0 i
  let new_rank = add_32 (sub_32 rank_0 u.1) 1
  let placed =
      put_level p i (record { forward = l.forward; span = add_32 (sub_32 l.span new_rank) 1 }) sl
  link_levels (suc i) rank_0 p us (put_level u.0 i (record { forward = p; span = new_rank }) placed)

unfoldable pub widen_levels : ℕ → List (Ptr × ℕ) → SkipList → Option SkipList
widen_levels i [] sl = some sl
widen_levels i (u ∷ us) sl = do
  l ← level_of sl u.0 i
  widen_levels (suc i) us (put_level u.0 i (record l { span = add_32 l.span 1 }) sl)

-- The first `n`, and the others.
abbrev pub split_trace : ℕ → List (Ptr × ℕ) → List (Ptr × ℕ) × List (Ptr × ℕ)
split_trace zero us = ([], us)
split_trace (suc n) [] = ([], [])
split_trace (suc n) (u ∷ us) = let rest = split_trace n us in (u ∷ rest.0, rest.1)

-- `insert` of the info at `info`, with the address `p` of the new node and its level.
unfoldable pub insert : (fuel : ℕ) → (p : Ptr) → (level : ℕ) → ℤ → Ptr → SkipList → Option SkipList
insert fuel p level key info sl = do
  trace ← descend fuel sl.level sl key (sl.infos info) sl.header 0
  raised ← raise_header (level - sl.level) sl.level sl
  let sl1 = record (raised.1) { level = if ltb sl.level level then level else sl.level }
  let sl2 = put_node p (new_skip_list_node level key info) sl1
  let parts = split_trace level (trace ++ raised.0)
  linked ← link_levels 0 (lowest sl.header trace).1 p parts.0 sl2
  widened ← widen_levels level parts.1 linked
  some (record widened { length_32 = add_32 widened.length_32 1 })

-- A level without the node `x`: where it is linked, the span grows by its own.
unfoldable pub unlink_level : SkipList → Ptr → ℕ → SkipListLevel → Option SkipListLevel
unlink_level sl x i l =
    if l.forward == x
    then Option.map
        (λ (own : SkipListLevel). record {
          forward = own.forward;
          span = add_32 l.span (sub_32 own.span 1);
        })
        (level_of sl x i)
    else some (record l { span = sub_32 l.span 1 })

unfoldable pub unlink_levels : ℕ → Ptr → List (Ptr × ℕ) → SkipList → Option SkipList
unlink_levels i x [] sl = some sl
unlink_levels i x (u ∷ us) sl = do
  l ← level_of sl u.0 i
  l' ← unlink_level sl x i l
  unlink_levels (suc i) x us (put_level u.0 i l' sl)

-- The empty levels at the top go; `level` is at least 1.
unfoldable pub lower_level : ℕ → SkipList → Option ℕ
lower_level zero sl = some zero
lower_level (suc zero) sl = some 1
lower_level (suc (suc n)) sl = do
  l ← level_of sl sl.header (suc n)
  let lower = lower_level (suc n) sl
  if l.forward == null then lower else some (suc (suc n))

unfoldable pub remove_node : Ptr → List (Ptr × ℕ) → SkipList → Option SkipList
remove_node x trace sl = do
  unlinked ← unlink_levels 0 x trace sl
  level ← lower_level unlinked.level unlinked
  some (record unlinked { level = level; length_32 = sub_32 unlinked.length_32 1 })

unfoldable pub remove : (fuel : ℕ) → ℤ → RankInfo → SkipList → Option (Bool × SkipList)
remove fuel key info sl = do
  trace ← descend fuel sl.level sl key info sl.header 0
  l ← level_of sl (lowest sl.header trace).0 0
  let removed = Option.map (λ (t : SkipList). (true, t)) (remove_node l.forward trace sl)
  if found sl l.forward key info then removed else some (false, sl)

-- A descent by rank; `inr` is where the rank is reached, `inl` where a level ends.
unfoldable pub walk_rank :
    (fuel : ℕ) → SkipList → ℕ → (rank : ℕ) → Ptr → ℕ → Option ((Ptr × ℕ) ⊎ Ptr)
walk_rank zero sl i rank x visited = none
walk_rank (suc k) sl i rank x visited = do
  l ← level_of sl x i
  let next = add_32 visited l.span
  let further = walk_rank k sl i rank l.forward next
  if l.forward == null || gt_32 next rank
      then some (inl (x, visited))
      else if next == rank
      then some (inr l.forward)
      else further

unfoldable pub get_first_by_rank : (fuel level : ℕ) → SkipList → ℕ → Ptr → ℕ → Option Ptr
get_first_by_rank fuel zero sl rank x visited = some null
get_first_by_rank fuel (suc i) sl rank x visited = do
  stop ← walk_rank fuel sl i rank x visited
  elim stop [ inr p ↦ some p | inl s ↦ get_first_by_rank fuel i sl rank s.0 s.1 ]

-- `none` inside is the pair (-1, nil).
unfoldable pub search_by_rank : (fuel : ℕ) → SkipList → ℕ → Option (Option (ℤ × Ptr))
search_by_rank fuel sl rank = do
  p ← get_first_by_rank fuel sl.level sl rank sl.header 0
  some (if p == null then none else some ((sl.nodes p).key, (sl.nodes p).info))

-- The nodes from `p` on, while the rank is at most `max`: each info gets its rank, and is copied.
unfoldable pub copy_range :
    (fuel : ℕ) → Ptr → (rank max : ℕ) → SkipList → Option (List RankInfo × SkipList)
copy_range zero p rank max sl = none
copy_range (suc k) p rank max sl =
    let info = record (sl.infos (sl.nodes p).info) { rank = rank } in
    let ranked = record sl { infos = update sl.infos (sl.nodes p).info info } in
    let next = level_of sl p 0 >>= λ l. copy_range k l.forward (add_32 rank 1) max ranked in
    if gt_32 rank max || p == null
    then some ([], sl)
    else Option.map (λ (rest : List RankInfo × SkipList). (info ∷ rest.0, rest.1)) next

unfoldable pub search_by_rank_range :
    (fuel : ℕ) → (min max : ℕ) → SkipList → Option (List RankInfo × SkipList)
search_by_rank_range fuel min max sl = do
  st ← get_first_by_rank fuel sl.level sl min sl.header 0
  copy_range fuel st min max sl
