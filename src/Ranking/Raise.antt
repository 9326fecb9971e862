-- ===== src/Ranking/Raise.antt =====
-- The levels that only the new node of insert of ranking/ranking.go reaches, and the parts of its
-- trace.
use mathlib.Core.Path.{subst}
use touch_go_core.Prelude.{
  ℕ, zero, suc, ◌+◌, ◌<◌, ◌≤◌, List, [], ◌∷◌, ◌++◌, some, ◌==◌, length, ◌≡◌, refl, ◌∙◌, arith,
  Bool-cases, inl, inr, replicate,
}
use touch_go_core.Prelude.Ptr.{Ptr, null, ==-eq}
use touch_go_core.Ranking.{SkipList, level_of, put_level, raise_header, split_trace}
use touch_go_core.Ranking.Levels.{
  NoneTall, SameTall, has-head, has-tail, height, put_level_self, put_level_ne, height-put_level,
}
use touch_go_core.Ranking.LevelLoop.{
  SameRest, SameRest-refl, SameRest-trans, SameRest-put_level, AllTrace,
}
use touch_go_core.Ranking.Splice.{link}

-- From the level `i` up to `top` the header has no next node.
abbrev pub NoneAbove : SkipList → ℕ → ℕ → Type 0
NoneAbove sl i top =
    (j : ℕ) → i ≤ j → j < top → (n : ℕ) × (level_of sl sl.header j ≡ some (link null n))

-- What `raise_header` changes: the spans of the header at the levels from `i` up to `top`.
pub record Raised (sl : SkipList) (i top : ℕ) (sl' : SkipList) : Type 0 where
  pub rest : SameRest sl sl'
  pub below : (y : Ptr) (j : ℕ) → j < i → level_of sl' y j ≡ level_of sl y j
  pub above : (y : Ptr) (j : ℕ) → top ≤ j → level_of sl' y j ≡ level_of sl y j
  pub spans : (j : ℕ) → i ≤ j → j < top → level_of sl' sl.header j ≡ some (link null sl.length_32)

raise_header_turn :
    (n i : ℕ) (sl sl' : SkipList) (m : ℕ) (us : List (Ptr × ℕ))
    → level_of sl sl.header i ≡ some (link null m)
    → raise_header n (suc i) (put_level sl.header i (link null sl.length_32) sl) ≡ some (us, sl')
    → raise_header (suc n) i sl ≡ some ((sl.header, 0) ∷ us, sl')
unfolding raise_header
raise_header_turn n i sl sl' m us e r = rw (raise_header, e, r)

raise_header_none : (i : ℕ) (sl : SkipList) → raise_header zero i sl ≡ some ([], sl)
unfolding raise_header
raise_header_none i sl = refl

pub raise_header-Raised :
    (n i : ℕ) (sl : SkipList)
    → i + n ≤ height sl sl.header
    → NoneAbove sl i (i + n)
    → (sl' : SkipList) × (raise_header n i sl ≡ some (replicate n (sl.header, 0), sl'))
      × Raised sl i (i + n) sl'
raise_header-Raised zero i sl h none = (
  sl,
  raise_header_none i sl,
  record {
    rest = SameRest-refl sl;
    below = λ y j e. refl;
    above = λ y j e. refl;
    spans = λ j a b. absurd (omega arith);
  },
)
raise_header-Raised (suc n) i sl h none =
    let l = link null sl.length_32 in
    let sl1 = put_level sl.header i l sl in
    let high : suc i + n ≤ height sl1 sl.header =
      omega (arith, h, height-put_level sl sl.header sl.header i l) in
    let none1 : NoneAbove sl1 (suc i) (suc i + n) = λ j a b.
      let (m, e) = none j (omega arith) (omega arith) in
      (m, put_level_ne sl sl.header sl.header j i l (omega arith) ∙ e) in
    let (sl', run, r) = raise_header-Raised n (suc i) sl1 high none1 in
    let (m, here) = none i (omega arith) (omega arith) in
    (
      sl',
      raise_header_turn n i sl sl' m (replicate n (sl.header, 0)) here run,
      record {
        rest = SameRest-trans (SameRest-put_level sl sl.header i l) r.rest;
        below =
            λ y j e. r.below y j (omega arith) ∙ put_level_ne sl sl.header y j i l (omega arith);
        above =
            λ y j e. r.above y j (omega arith) ∙ put_level_ne sl sl.header y j i l (omega arith);
        spans = λ j a b. elim (Bool-cases (i == j)) [
          | inl e ↦
              subst (λ n. level_of sl' sl.header n ≡ some l) (==-eq e)
                (r.below sl.header i (omega arith)
                  ∙ put_level_self sl sl.header i l (omega (arith, h)))
          | inr e ↦ r.spans j (ground (arith, a, e)) (omega arith)
        ];
      },
    )

-- The first levels of a trace, and the others.
pub split_trace-AllTrace :
    (base : SkipList) (ys : List Ptr) (n i : ℕ) (us : List (Ptr × ℕ))
    → n ≤ length us
    → AllTrace base ys i us
    → AllTrace base ys i (split_trace n us).0
      × AllTrace base ys (i + n) (split_trace n us).1
      × (length (split_trace n us).0 ≡ n)
      × (n + length (split_trace n us).1 ≡ length us)
split_trace-AllTrace base ys zero i us h all =
    (tt, subst (λ m. AllTrace base ys m us) (omega arith) all, refl, omega arith)
split_trace-AllTrace base ys (suc n) i [] h all = absurd (omega arith)
split_trace-AllTrace base ys (suc n) i (u ∷ us) h all =
    let (a, b, e, f) = split_trace-AllTrace base ys n (suc i) us (omega arith) all.1 in
    (
      (all.0, a),
      subst (λ m. AllTrace base ys m (split_trace n us).1) (omega arith) b,
      omega arith,
      omega arith,
    )

pub AllTrace-append :
    (base : SkipList) (ys : List Ptr) (i : ℕ) (us vs : List (Ptr × ℕ))
    → AllTrace base ys i us
    → AllTrace base ys (i + length us) vs
    → AllTrace base ys i (us ++ vs)
AllTrace-append base ys i [] vs a b = subst (λ m. AllTrace base ys m vs) (omega arith) b
AllTrace-append base ys i (u ∷ us) vs a b = (
  a.0,
  AllTrace-append base ys (suc i) us vs a.1 (subst (λ m. AllTrace base ys m vs) (omega arith) b),
)

-- Above the nodes of a list the trace is the header.
pub AllTrace-raised :
    (base : SkipList) (x : Ptr) (ps : List Ptr) (n i : ℕ)
    → i + n ≤ height base x
    → ((j : ℕ) → i ≤ j → NoneTall base j ps)
    → AllTrace base (x ∷ ps) i (replicate n (x, 0))
AllTrace-raised base x ps zero i h none = tt
AllTrace-raised base x ps (suc n) i h none = (
  record {
    front = [];
    mid = ps;
    parts = refl;
    rank = refl;
    none = none i (omega arith);
    reaches = ground (arith, h);
  },
  AllTrace-raised base x ps n (suc i) (omega arith) (λ j e. none j (omega arith)),
)

NoneTall-behind :
    (base base' : SkipList) (j : ℕ) (mid : List Ptr)
    → SameTall base base' j mid
    → NoneTall base j mid
    → NoneTall base' j mid
NoneTall-behind base base' j [] same h = tt
NoneTall-behind base base' j (y ∷ mid) same h = (
  same y (has-head y mid) ∙ h.0,
  NoneTall-behind base base' j mid (λ z e. same z (has-tail z y mid e)) h.1,
)

SameTall-behind :
    (base base' : SkipList) (j : ℕ) (front ys : List Ptr)
    → SameTall base base' j (front ++ ys)
    → SameTall base base' j ys
SameTall-behind base base' j [] ys same = same
SameTall-behind base base' j (y ∷ front) ys same =
    SameTall-behind base base' j front ys (λ z e. same z (has-tail z y (front ++ ys) e))

-- The trace reads only which nodes reach a level.
pub AllTrace-same :
    (base base' : SkipList) (ys : List Ptr) (i : ℕ) (us : List (Ptr × ℕ))
    → ((j : ℕ) → SameTall base base' j ys)
    → AllTrace base ys i us
    → AllTrace base' ys i us
AllTrace-same base base' ys i [] same all = tt
AllTrace-same base base' ys i (u ∷ us) same all =
    let t = all.0 in
    let here =
      SameTall-behind base base' i t.front (u.0 ∷ t.mid)
        (subst (SameTall base base' i) t.parts (same i)) in
    (
      record {
        front = t.front;
        mid = t.mid;
        parts = t.parts;
        rank = t.rank;
        none = NoneTall-behind base base' i t.mid (λ y e. here y (has-tail y u.0 t.mid e)) t.none;
        reaches = here u.0 (has-head u.0 t.mid) ∙ t.reaches;
      },
      AllTrace-same base base' ys (suc i) us same all.1,
    )
