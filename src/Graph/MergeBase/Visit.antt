-- ===== src/Graph/MergeBase/Visit.antt =====
-- `visit` of `merge_base_commit`: marks only grow, and what changes is queued.
use reflake.Prelude.{
  Str, ℕ, ◌+◌, ◌≤◌, ◌<◌, List, [], ◌∷◌, In, ◌⊎◌, inl, inr, ⊎_elim, ◌≡◌, refl, sym, subst, true,
  false, All, Bool-cases, length, if◌then◌else◌, ◌==◌, list_eq, nat_eq, arith,
}
use reflake.Prelude.Dict.{Dict, put, get-put}
use reflake.Domain.{CommitObject, Result, ok}
use reflake.Graph.Generation.{Memo, IsHistory, Ancestor}
use reflake.Graph.Generation.Correct.{IsMemo, of_lem}
use reflake.Graph.MergeBase.{
  Mark, mark, has_a, has_b, join, same_mark, Frontier, mark_of, heappush, read_known, visit,
  visit_all,
}
use reflake.Graph.MergeBase.Queue.{
  ids, Descending, ids-heappush, length-heappush, heappush-All, heappush-Descending,
}

abbrev pub Covers : Mark → Mark → Type 0
Covers m n = (has_a m ≡ true → has_a n ≡ true) × (has_b m ≡ true → has_b n ≡ true)

pub same_mark-eq : (m n : Mark) → same_mark m n ≡ true → m ≡ n
unfolding same_mark
same_mark-eq (mark a b) (mark c d) h = ground arith

Covers-join : (m n : Mark) → Covers m (join m n) × Covers n (join m n)
unfolding join
Covers-join (mark a b) (mark c d) = ground arith

join_sound :
    (m n : Mark)
    → (has_a (join m n) ≡ true → (has_a m ≡ true) ⊎ (has_a n ≡ true))
      × (has_b (join m n) ≡ true → (has_b m ≡ true) ⊎ (has_b n ≡ true))
unfolding join
join_sound (mark a b) (mark c d) = ground arith

-- The flag bits that are not set yet.
abbrev missing : Mark → ℕ
missing (mark a b) = (if a then 0 else 1) + (if b then 0 else 1)

missing-join : (m n : Mark) → same_mark (join m n) m ≡ false → missing (join m n) + 1 ≤ missing m
unfolding join same_mark
missing-join (mark a b) (mark c d) h = ground arith

pub mark_of-put :
    (d : Dict Str Mark) (x y : Str) (m : Mark)
    → mark_of (put d x m) y ≡ (if y == x then m else mark_of d y)
unfolding mark_of
mark_of-put d x y m = ground (arith, get-put d x y m)

abbrev pub room : List Str → Dict Str Mark → ℕ
room [] marked = 0
room (x ∷ nodes) marked = missing (mark_of marked x) + room nodes marked

missing-put :
    (d : Dict Str Mark) (x y : Str) (m : Mark)
    → missing m + 1 ≤ missing (mark_of d x)
    → missing (mark_of (put d x m) y) + (if y == x then 1 else 0) ≤ missing (mark_of d y)
missing-put d x y m h = rw mark_of-put (ground arith)

room_mono :
    (nodes : List Str) (d : Dict Str Mark) (x : Str) (m : Mark)
    → missing m + 1 ≤ missing (mark_of d x)
    → room nodes (put d x m) ≤ room nodes d
room_mono [] d x m h = omega arith
room_mono (y ∷ nodes) d x m h = omega (arith, room_mono nodes d x m h, missing-put d x y m h)

room-put :
    (nodes : List Str) (d : Dict Str Mark) (x : Str) (m : Mark)
    → In x nodes
    → missing m + 1 ≤ missing (mark_of d x)
    → room nodes (put d x m) + 1 ≤ room nodes d
room-put [] d x m n h = absurd n
room-put (y ∷ nodes) d x m n h =
    ground (arith, room_mono nodes d x m h, missing-put d x y m h, room-put nodes d x m)

module _ (read : Str → Result CommitObject) (nodes : List Str) (gen : Str → ℕ) (A B : Str) where
  -- Marks and items are right, and a marked commit outside the queue has passed its marks on, but
  -- for `exempt`.
  pub record Inv (exempt : Str → Type 0) (s : Frontier) : Type 0 where
    pub right : IsMemo gen s.memo
    pub inside : All (λ e. In e.1 nodes) s.heap
    pub keyed : All (λ e. gen e.1 ≡ e.0) s.heap
    pub ordered : Descending s.heap
    pub sound_a : (x : Str) → has_a (mark_of s.marked x) ≡ true → Ancestor (read_known read) x A
    pub sound_b : (x : Str) → has_b (mark_of s.marked x) ≡ true → Ancestor (read_known read) x B
    pub passed :
        (x : Str)
        → exempt x
          ⊎ (In x (ids s.heap)
              ⊎ ((p : Str) (c : CommitObject)
                  → read x ≡ ok c
                  → In p c.parents
                  → Covers (mark_of s.marked x) (mark_of s.marked p)))
    pub both :
        (x : Str)
        → has_a (mark_of s.marked x) ≡ true
        → has_b (mark_of s.marked x) ≡ true
        → In x (ids s.heap)

  -- What a visit may do to the frontier.
  pub record Grows (s t : Frontier) : Type 0 where
    pub marks : (x : Str) → Covers (mark_of s.marked x) (mark_of t.marked x)
    pub queue : (x : Str) → In x (ids s.heap) → In x (ids t.heap)
    pub same : (x : Str) → (mark_of t.marked x ≡ mark_of s.marked x) ⊎ In x (ids t.heap)
    pub work : room nodes t.marked + length t.heap ≤ room nodes s.marked + length s.heap

  pub Grows_refl : (s : Frontier) → Grows s s
  Grows_refl s = record {
    marks = λ x. (λ h. h, λ h. h);
    queue = λ x m. m;
    same = λ x. inl refl;
    work = omega arith;
  }

  pub Grows_trans : (s t u : Frontier) → Grows s t → Grows t u → Grows s u
  Grows_trans s t u a b = record {
    marks = λ x. (λ h. (b.marks x).0 ((a.marks x).0 h), λ h. (b.marks x).1 ((a.marks x).1 h));
    queue = λ x m. b.queue x (a.queue x m);
    same = λ x. ground (arith, a.same x, b.same x, b.queue x);
    work = omega (arith, a.work, b.work);
  }

  module _ (depth : ℕ) (history : IsHistory (read_known read) nodes gen) where
    pub visit-Inv :
        (exempt : Str → Type 0) (x : Str) (flag : Mark) (s : Frontier)
        → In x nodes
        → gen x < depth
        → (has_a flag ≡ true → Ancestor (read_known read) x A)
        → (has_b flag ≡ true → Ancestor (read_known read) x B)
        → Inv exempt s
        → (t : Frontier) × (visit read depth x flag s ≡ ok t)
          × Inv exempt t
          × Grows s t
          × Covers flag (mark_of t.marked x)
    unfolding visit
    visit-Inv exempt x flag s m deep fa fb h =
        elim (Bool-cases (same_mark (join (mark_of s.marked x) flag) (mark_of s.marked x))) [
          | inl old ↦ (
            s,
            rw old,
            h,
            Grows_refl s,
            subst (Covers flag) (same_mark-eq combined (mark_of s.marked x) old)
                (Covers-join (mark_of s.marked x) flag).1,
          )
          | inr new ↦
              let (memo', found, right) =
                of_lem gen (read_known read) nodes history depth x m deep s.memo h.right in
              let less = missing-join (mark_of s.marked x) flag new in
              (after memo', rw (new, found), fresh_Inv memo' right, grown memo' less, marked memo')
        ]
      where
        combined : Mark
        combined = join (mark_of s.marked x) flag

        after : Memo → Frontier
        after memo' = record {
          marked = put s.marked x combined;
          heap = heappush (gen x) x s.heap;
          memo = memo';
        }

        changed :
            (y : Str)
            → (mark_of (put s.marked x combined) y ≡ mark_of s.marked y)
              ⊎ ((y ≡ x) × (mark_of (put s.marked x combined) y ≡ combined))
        changed y = ground (arith, mark_of-put s.marked x y combined)

        cover : (y : Str) → Covers (mark_of s.marked y) (mark_of (put s.marked x combined) y)
        cover y =
            ground (arith, mark_of-put s.marked x y combined, Covers-join (mark_of s.marked x) flag)

        queued : (y : Str) → (y ≡ x) ⊎ In y (ids s.heap) → In y (ids (heappush (gen x) x s.heap))
        queued y = (ids-heappush (gen x) x s.heap y).1

        marked : (memo' : Memo) → Covers flag (mark_of (after memo').marked x)
        marked memo' =
            ground (arith, mark_of-put s.marked x x combined, Covers-join (mark_of s.marked x) flag)

        grown :
            (memo' : Memo)
            → missing combined + 1 ≤ missing (mark_of s.marked x)
            → Grows s (after memo')
        grown memo' less = record {
          marks = cover;
          queue = λ y n. queued y (inr n);
          same = λ y. ⊎_elim inl (λ c. inr (queued y (inl c.0))) (changed y);
          work =
              omega (
                arith,
                room-put nodes s.marked x combined m less,
                length-heappush (gen x) x s.heap,
              );
        }

        fresh_Inv : (memo' : Memo) → IsMemo gen memo' → Inv exempt (after memo')
        fresh_Inv memo' right = record {
          right = right;
          inside = heappush-All (λ e. In e.1 nodes) (gen x) x s.heap m h.inside;
          keyed = heappush-All (λ e. gen e.1 ≡ e.0) (gen x) x s.heap refl h.keyed;
          ordered = heappush-Descending (gen x) x s.heap h.ordered;
          sound_a = λ y e. elim (changed y) [
            | inl same ↦ h.sound_a y (rw same at e)
            | inr (at_x, now) ↦
                subst (λ z. Ancestor (read_known read) z A) (sym at_x)
                  (⊎_elim (h.sound_a x) fa ((join_sound (mark_of s.marked x) flag).0 (rw now at e)))
          ];
          sound_b = λ y e. elim (changed y) [
            | inl same ↦ h.sound_b y (rw same at e)
            | inr (at_x, now) ↦
                subst (λ z. Ancestor (read_known read) z B) (sym at_x)
                  (⊎_elim (h.sound_b x) fb ((join_sound (mark_of s.marked x) flag).1 (rw now at e)))
          ];
          passed = λ y. elim (changed y) [
            | inr (at_x, _) ↦ inr (inl (queued y (inl at_x)))
            | inl same ↦ elim (h.passed y) [
              | inl e ↦ inl e
              | inr (inl n) ↦ inr (inl (queued y (inr n)))
              | inr (inr pass) ↦ inr (inr (λ p c r n. ground (arith, pass p c r n, cover p)))
            ]
          ];
          both = λ y ea eb. elim (changed y) [
            | inr (at_x, _) ↦ queued y (inl at_x)
            | inl same ↦ queued y (inr (h.both y (rw same at ea) (rw same at eb)))
          ];
        }

    pub visit_all-Inv :
        (exempt : Str → Type 0) (flag : Mark) (ps : List Str) (s : Frontier)
        → ((p : Str) → In p ps → In p nodes)
        → ((p : Str) → In p ps → gen p < depth)
        → ((p : Str) → In p ps → has_a flag ≡ true → Ancestor (read_known read) p A)
        → ((p : Str) → In p ps → has_b flag ≡ true → Ancestor (read_known read) p B)
        → Inv exempt s
        → (t : Frontier) × (visit_all read depth ps flag s ≡ ok t)
          × Inv exempt t
          × Grows s t
          × ((p : Str) → In p ps → Covers flag (mark_of t.marked p))
    unfolding visit_all
    visit_all-Inv exempt flag [] s m deep fa fb h = (s, refl, h, Grows_refl s, λ p n. absurd n)
    visit_all-Inv exempt flag (p ∷ ps) s m deep fa fb h =
        let (t, e, ht, g, c) =
          visit-Inv exempt p flag s (m p (inl refl)) (deep p (inl refl)) (fa p (inl refl))
            (fb p (inl refl)) h in
        let (u, e', hu, g', c') =
          visit_all-Inv exempt flag ps t (λ q n. m q (inr n)) (λ q n. deep q (inr n))
            (λ q n. fa q (inr n)) (λ q n. fb q (inr n)) ht in
        (u, rw (e, e'), hu, Grows_trans s t u g g', covered t u c g' c')
      where
        covered :
            (t u : Frontier)
            → Covers flag (mark_of t.marked p)
            → Grows t u
            → ((q : Str) → In q ps → Covers flag (mark_of u.marked q))
            → (q : Str) → In q (p ∷ ps)
            → Covers flag (mark_of u.marked q)
        covered t u c g c' q (inl e) =
            subst (λ z. Covers flag (mark_of u.marked z)) (sym e)
              (λ k. (g.marks p).0 (c.0 k), λ k. (g.marks p).1 (c.1 k))
        covered t u c g c' q (inr n) = c' q n
