-- ===== src/Graph/MergeBase/Correct.antt =====
-- `merge_base_commit` returns a common ancestor of the largest generation, if there is one.
use reflake.Prelude.{
  Str, ℕ, zero, suc, ◌+◌, ◌*◌, ◌≤◌, ◌<◌, List, [], ◌∷◌, In, ◌⊎◌, inl, inr, ◌≡◌, refl, ◌∙◌, sym,
  subst, ap, true, false, Bool-cases, Option, some, none, length, ◌==◌, ==_iff, list_eq, nat_eq,
  arith,
}
use reflake.Prelude.Dict.{Dict, get, get-nil}
use reflake.Domain.{CommitObject, Result, ok, raise, diverge, ◌>>=◌}
use reflake.Graph.Generation.{Memo, IsHistory, Ancestor, here, up}
use reflake.Graph.Ancestor.Correct.{Ancestor-trans, le-Ancestor}
use reflake.Graph.MergeBase.{
  Mark, mark, has_a, has_b, Frontier, Heap, mark_of, read_known, same_mark, visit_all, search_base,
  merge_base_commit,
}
use reflake.Graph.MergeBase.Queue.{ids, Descending-le}
use reflake.Graph.MergeBase.Visit.{Covers, room, Inv, Grows, same_mark-eq, visit-Inv, visit_all-Inv}

-- What a call should return: a common ancestor of the largest generation, or None if none exists.
abbrev pub IsBest :
    (Str → Result CommitObject) → List Str → (Str → ℕ) → Str → Str → Option CommitObject → Type 0
IsBest read nodes gen A B none =
    (x : Str) → Ancestor (read_known read) x A → Ancestor (read_known read) x B → ⊥
IsBest read nodes gen A B (some c) =
    (id : Str) × (read id ≡ ok c)
    × Ancestor (read_known read) id A
    × Ancestor (read_known read) id B
    × ((x : Str) → Ancestor (read_known read) x A → Ancestor (read_known read) x B → gen x ≤ gen id)

known_commit :
    (r : Result CommitObject) (o : Option CommitObject)
    → (r >>= λ c. ok (some c)) ≡ ok o
    → (c : CommitObject) × (r ≡ ok c)
known_commit (ok c) o h = (c, refl)
known_commit (raise e) o h = cc
known_commit diverge o h = cc

known_ok :
    (r : Result CommitObject) (c : CommitObject) → (r >>= λ c. ok (some c)) ≡ ok (some c) → r ≡ ok c
known_ok (ok c) d h = cc
known_ok (raise e) d h = cc
known_ok diverge d h = cc

module _ (read : Str → Result CommitObject) (nodes : List Str) (gen : Str → ℕ) (A B : Str)
    (history : IsHistory (read_known read) nodes gen) (ma : In A nodes) (mb : In B nodes) where
  commit_at : (x : Str) → In x nodes → (c : CommitObject) × (read x ≡ ok c)
  commit_at x m = let (o, e) = history.known x m in known_commit (read x) o e

  above :
      (x : Str)
      → In x nodes
      → (p : Str) (c : CommitObject) → read x ≡ ok c
      → In p c.parents
      → In p nodes
  above x m p c r n = history.closed x p c m (rw r) n

  abbrev Settled : Str → Type 0
  Settled _ = ⊥

  -- From a marked commit the mark has reached an ancestor, or waits in the queue above it.
  climb_a :
      (s : Frontier)
      → Inv read nodes gen A B Settled s
      → {x y : Str} → Ancestor (read_known read) x y
      → In y nodes
      → has_a (mark_of s.marked y) ≡ true
      → (has_a (mark_of s.marked x) ≡ true) ⊎ ((z : Str) × In z (ids s.heap) × (gen x ≤ gen z))
  climb_a s h here m k = inl k
  climb_a s h {x} {y} (up {p} {c} e n q) m k = elim (h.passed y) [
    | inl impossible ↦ absurd impossible
    | inr (inl waits) ↦ inr (y, waits, le-Ancestor (read_known read) nodes gen history m (up e n q))
    | inr (inr pass) ↦
        let r = known_ok (read y) c e in climb_a s h q (above y m p c r n) ((pass p c r n).0 k)
  ]

  climb_b :
      (s : Frontier)
      → Inv read nodes gen A B Settled s
      → {x y : Str} → Ancestor (read_known read) x y
      → In y nodes
      → has_b (mark_of s.marked y) ≡ true
      → (has_b (mark_of s.marked x) ≡ true) ⊎ ((z : Str) × In z (ids s.heap) × (gen x ≤ gen z))
  climb_b s h here m k = inl k
  climb_b s h {x} {y} (up {p} {c} e n q) m k = elim (h.passed y) [
    | inl impossible ↦ absurd impossible
    | inr (inl waits) ↦ inr (y, waits, le-Ancestor (read_known read) nodes gen history m (up e n q))
    | inr (inr pass) ↦
        let r = known_ok (read y) c e in climb_b s h q (above y m p c r n) ((pass p c r n).1 k)
  ]

  -- Both marks are set at the two commits themselves.
  abbrev Started : Frontier → Type 0
  Started s = (has_a (mark_of s.marked A) ≡ true) × (has_b (mark_of s.marked B) ≡ true)

  -- A common ancestor is dominated by an item of the queue.
  dominated :
      (s : Frontier)
      → Inv read nodes gen A B Settled s
      → Started s
      → (x : Str) → Ancestor (read_known read) x A
      → Ancestor (read_known read) x B
      → (z : Str) × In z (ids s.heap) × (gen x ≤ gen z)
  dominated s h (ka, kb) x qa qb = elim (climb_a s h qa ma ka) [
    | inr found ↦ found
    | inl at_a ↦ elim (climb_b s h qb mb kb) [
      | inr found ↦ found
      | inl at_b ↦ (x, h.both x at_a at_b, omega arith)
    ]
  ]

  module _ (depth : ℕ) (deep : (y : Str) → In y nodes → gen y < depth) where
    module _ (g : ℕ) (x : Str) (rest : Heap) (marked : Dict Str Mark) (memo : Memo)
        (single : has_a (mark_of marked x) ≡ true → has_b (mark_of marked x) ≡ true → ⊥)
        (h : Inv read nodes gen A B Settled
          (record { marked = marked; heap = (g, x) ∷ rest; memo = memo }))
        (c : CommitObject) (r : read x ≡ ok c) where
      abbrev rest_of : Frontier
      rest_of = record { marked = marked; heap = rest; memo = memo }

      -- After the pop only the popped commit has marks to pass on.
      popped : Inv read nodes gen A B (λ y. y ≡ x) rest_of
      popped = record {
        right = h.right;
        inside = h.inside.1;
        keyed = h.keyed.1;
        ordered = h.ordered.1;
        sound_a = h.sound_a;
        sound_b = h.sound_b;
        passed = λ y. waits y (h.passed y);
        both = λ y ea eb. still y ea eb (h.both y ea eb);
      }
        where
          waits :
              (y : Str)
              → ⊥
                ⊎ (((y ≡ x) ⊎ In y (ids rest))
                    ⊎ ((p : Str) (c' : CommitObject)
                        → read y ≡ ok c'
                        → In p c'.parents
                        → Covers (mark_of marked y) (mark_of marked p)))
              → (y ≡ x)
                ⊎ (In y (ids rest)
                    ⊎ ((p : Str) (c' : CommitObject)
                        → read y ≡ ok c'
                        → In p c'.parents
                        → Covers (mark_of marked y) (mark_of marked p)))
          waits y (inl impossible) = absurd impossible
          waits y (inr (inl (inl e))) = inl e
          waits y (inr (inl (inr n))) = inr (inl n)
          waits y (inr (inr pass)) = inr (inr pass)

          still :
              (y : Str)
              → has_a (mark_of marked y) ≡ true
              → has_b (mark_of marked y) ≡ true
              → (y ≡ x) ⊎ In y (ids rest)
              → In y (ids rest)
          still y ea eb (inl e) = absurd (
              single (subst (λ z. has_a (mark_of marked z) ≡ true) e ea)
                (subst (λ z. has_b (mark_of marked z) ≡ true) e eb))
          still y ea eb (inr n) = n

      -- The visits to the parents pass the marks on.
      passed_on :
          (t : Frontier)
          → Inv read nodes gen A B (λ y. y ≡ x) t
          → Grows read nodes gen A B rest_of t
          → ((p : Str) → In p c.parents → Covers (mark_of marked x) (mark_of t.marked p))
          → Inv read nodes gen A B Settled t
      passed_on t ht grows covers = record {
        right = ht.right;
        inside = ht.inside;
        keyed = ht.keyed;
        ordered = ht.ordered;
        sound_a = ht.sound_a;
        sound_b = ht.sound_b;
        passed = λ y. elim (ht.passed y) [
          | inl e ↦ elim (grows.same x) [
            | inl same ↦ inr (inr (λ p c' r' n. handed y p c' e same r' n))
            | inr n ↦ inr (inl (subst (λ z. In z (ids t.heap)) (sym e) n))
          ]
          | inr other ↦ inr other
        ];
        both = ht.both;
      }
        where
          handed :
              (y p : Str) (c' : CommitObject)
              → y ≡ x
              → mark_of t.marked x ≡ mark_of marked x
              → read y ≡ ok c'
              → In p c'.parents
              → Covers (mark_of t.marked y) (mark_of t.marked p)
          handed y p c' e same r' n =
              subst (λ m. Covers m (mark_of t.marked p)) (sym (ap (mark_of t.marked) e ∙ same))
                (covers p (subst (λ (k : CommitObject). In p k.parents) (known e r') n))
            where
              known : y ≡ x → read y ≡ ok c' → c' ≡ c
              known e r' = cc

      -- One round at a commit that is not marked from both sides.
      round :
          In x nodes
          → (t : Frontier) × (visit_all read depth c.parents (mark_of marked x) rest_of ≡ ok t)
            × Inv read nodes gen A B Settled t
            × Grows read nodes gen A B rest_of t
      round m =
          let parent = λ (p : Str) (n : In p c.parents). above x m p c r n in
          let (t, e, ht, grows, covers) =
            visit_all-Inv read nodes gen A B depth history (λ y. y ≡ x) (mark_of marked x) c.parents
              rest_of parent (λ p n. deep p (parent p n))
              (λ p n k. Ancestor-trans (read_known read) (up {c = c} (rw r) n here) (h.sound_a x k))
              (λ p n k. Ancestor-trans (read_known read) (up {c = c} (rw r) n here) (h.sound_b x k))
              popped in
          (t, e, passed_on t ht grows covers, grows)

    not_both :
        (m : Mark) → same_mark m (mark true true) ≡ false → has_a m ≡ true → has_b m ≡ true → ⊥
    unfolding same_mark
    not_both (mark a b) other ea eb = ground arith

    search_base-IsBest :
        (fuel : ℕ) (heap : Heap) (marked : Dict Str Mark) (memo : Memo)
        → Inv read nodes gen A B Settled (record { marked = marked; heap = heap; memo = memo })
        → Started (record { marked = marked; heap = heap; memo = memo })
        → room nodes marked + length heap < fuel
        → (o : Option CommitObject) × (search_base read depth fuel
              (record { marked = marked; heap = heap; memo = memo })
            ≡ ok o)
          × IsBest read nodes gen A B o
    unfolding search_base
    search_base-IsBest zero heap marked memo h started lt = absurd (omega arith)
    search_base-IsBest (suc fuel) [] marked memo h started lt =
        (none, refl, λ x qa qb. (dominated _ h started x qa qb).1)
    search_base-IsBest (suc fuel) ((g, x) ∷ rest) marked memo h started lt =
        elim (Bool-cases (same_mark (mark_of marked x) (mark true true))) [
          | inl found ↦
              let both = same_mark-eq (mark_of marked x) (mark true true) found in
              let (c, r) = commit_at x h.inside.0 in
              (
                some c,
                rw (found, search_base) (rw r),
                (
                  x,
                  r,
                  h.sound_a x (rw both),
                  h.sound_b x (rw both),
                  λ y qa qb. best y (dominated _ h started y qa qb),
                ),
              )
          | inr other ↦
              let single = not_both (mark_of marked x) other in
              let (c, r) = commit_at x h.inside.0 in
              let (t, e, ht, grows) = round g x rest marked memo single h c r h.inside.0 in
              let (o, ends, is_best) =
                search_base-IsBest fuel t.heap t.marked t.memo ht
                  ((grows.marks A).0 started.0, (grows.marks B).1 started.1)
                  (omega (arith, grows.work)) in
              (o, rw (other, search_base) (rw (r, e) ends), is_best)
        ]
      where
        best : (y : Str) → (z : Str) × ((z ≡ x) ⊎ In z (ids rest)) × (gen y ≤ gen z) → gen y ≤ gen x
        best y (z, inl e, le) = omega (arith, ap gen e)
        best y (z, inr n, le) =
            omega (arith, Descending-le gen g rest z h.ordered.0 h.keyed.1 n, h.keyed.0)

    mark_of-nil : (x : Str) → mark_of [] x ≡ mark false false
    unfolding mark_of get
    mark_of-nil x = refl

    room-nil : (xs : List Str) → room xs [] ≤ 2 * length xs
    room-nil [] = omega arith
    room-nil (x ∷ xs) = rw (mark_of-nil x) (omega (arith, room-nil xs))

    empty_Inv : Inv read nodes gen A B Settled (record { marked = []; heap = []; memo = [] })
    empty_Inv = record {
      right = λ x g e. cc (get-nil x);
      inside = tt;
      keyed = tt;
      ordered = tt;
      sound_a = λ x e. cc (mark_of-nil x);
      sound_b = λ x e. cc (mark_of-nil x);
      passed = λ x. inr (inr (λ p c r n. rw (mark_of-nil x) (λ e. cc, λ e. cc)));
      both = λ x e e'. cc (mark_of-nil x);
    }

    -- In a history, with recursion deeper than every generation and fuel for two rounds for each
    -- commit, `merge_base_commit` returns: None if the two commits have no common ancestor, and
    -- otherwise a common ancestor whose generation no other exceeds.
    pub merge_base_commit_lem :
        (fuel : ℕ)
        → 2 * length nodes < fuel
        → (o : Option CommitObject) × (merge_base_commit read depth fuel A B ≡ ok o)
          × IsBest read nodes gen A B o
    unfolding merge_base_commit
    merge_base_commit_lem fuel lt = elim (Bool-cases (A == B)) [
      | inl same ↦
          let (c, r) = commit_at A ma in
          let e : A ≡ B = (==_iff A B).0 same in
          (
            some c,
            rw (same, merge_base_commit) (rw r),
            (
              A,
              r,
              here,
              subst (Ancestor (read_known read) A) e here,
              λ x qa qb. le-Ancestor (read_known read) nodes gen history ma qa,
            ),
          )
      | inr differ ↦
          let (s, e, hs, gs, cs) =
            visit-Inv read nodes gen A B depth history Settled A (mark true false) _ ma (deep A ma)
              (λ k. here) (λ k. cc) empty_Inv in
          let (t, e', ht, gt, ct) =
            visit-Inv read nodes gen A B depth history Settled B (mark false true) s mb (deep B mb)
              (λ k. cc) (λ k. here) hs in
          let (o, ends, is_best) =
            search_base-IsBest fuel t.heap t.marked t.memo ht
              ((gt.marks A).0 (cs.0 refl), ct.1 refl)
              (omega (arith, gs.work, gt.work, room-nil nodes)) in
          (o, rw (differ, merge_base_commit) (rw (e, e') ends), is_best)
    ]
