-- ===== src/Graph/Ancestor/Push.antt =====
-- The inner loop of `is_ancestor_commit`, which queues the parents that were not seen before.
use reflake.Prelude.{
  Str, ℕ, ◌+◌, ◌≤◌, List, [], ◌∷◌, In, ◌⊎◌, inl, inr, ⊎_elim, ◌≡◌, refl, ◌∙◌, false, Bool-cases,
  contains, contains-In, length, if◌then◌else◌, list_eq, nat_eq, arith,
}
use reflake.Graph.Ancestor.{Search, push_parents}

-- The nodes that were not seen yet.
abbrev pub unseen : List Str → List Str → ℕ
unseen [] seen = 0
unseen (x ∷ nodes) seen = (if contains seen x then 0 else 1) + unseen nodes seen

unseen_mono : (nodes seen : List Str) (x : Str) → unseen nodes (x ∷ seen) ≤ unseen nodes seen
unseen_mono [] seen x = omega arith
unseen_mono (y ∷ nodes) seen x = ground (arith, unseen_mono nodes seen x)

pub unseen-le : (nodes seen : List Str) → unseen nodes seen ≤ length nodes
unseen-le [] seen = omega arith
unseen-le (y ∷ nodes) seen = ground (arith, unseen-le nodes seen)

unseen-cons :
    (nodes seen : List Str) (x : Str)
    → In x nodes
    → contains seen x ≡ false
    → unseen nodes (x ∷ seen) + 1 ≤ unseen nodes seen
unseen-cons [] seen x m fresh = absurd m
unseen-cons (y ∷ nodes) seen x m fresh =
    ground (arith, unseen_mono nodes seen x, unseen-cons nodes seen x)

pub record Pushes (nodes ps : List Str) (s t : Search) : Type 0 where
  pub memo : t.memo ≡ s.memo
  pub seen_sound : (x : Str) → In x t.seen → In x s.seen ⊎ In x ps
  pub stack_sound : (x : Str) → In x t.stack → In x s.stack ⊎ In x ps
  pub seen_kept : (x : Str) → In x s.seen → In x t.seen
  pub stack_kept : (x : Str) → In x s.stack → In x t.stack
  pub queued : (x : Str) → In x t.seen → In x s.seen ⊎ In x t.stack
  pub covers : (x : Str) → In x ps → In x t.seen
  pub work : unseen nodes t.seen + length t.stack ≤ unseen nodes s.seen + length s.stack

one : (p : Str) (s : Search) → Search
one p s = if contains s.seen p then s else record s { seen = p ∷ s.seen; stack = p ∷ s.stack }

one-Pushes :
    (nodes : List Str) (p : Str) (s : Search) → In p nodes → Pushes nodes (p ∷ []) s (one p s)
unfolding one
one-Pushes nodes p s m = elim (Bool-cases (contains s.seen p)) [
  | inl known ↦ rw known (record {
    memo = refl;
    seen_sound = λ x n. inl n;
    stack_sound = λ x n. inl n;
    seen_kept = λ x n. n;
    stack_kept = λ x n. n;
    queued = λ x n. inl n;
    covers = λ x n. ground (arith, contains-In s.seen p);
    work = omega arith;
  })
  | inr fresh ↦ rw fresh (record {
    memo = refl;
    seen_sound = λ x n. ground arith;
    stack_sound = λ x n. ground arith;
    seen_kept = λ x n. inr n;
    stack_kept = λ x n. inr n;
    queued = λ x n. ground arith;
    covers = λ x n. ground arith;
    work = omega (arith, unseen-cons nodes s.seen p m fresh);
  })
]

Pushes-trans :
    (nodes : List Str) (p : Str) (ps : List Str) (s t u : Search)
    → Pushes nodes (p ∷ []) s t
    → Pushes nodes ps t u
    → Pushes nodes (p ∷ ps) s u
Pushes-trans nodes p ps s t u a b = record {
  memo = b.memo ∙ a.memo;
  seen_sound = λ x m. ground (arith, a.seen_sound x, b.seen_sound x m);
  stack_sound = λ x m. ground (arith, a.stack_sound x, b.stack_sound x m);
  seen_kept = λ x m. b.seen_kept x (a.seen_kept x m);
  stack_kept = λ x m. b.stack_kept x (a.stack_kept x m);
  queued = λ x m.
      ⊎_elim (λ n. ⊎_elim inl (λ k. inr (b.stack_kept x k)) (a.queued x n)) inr (b.queued x m);
  covers = λ x m. ⊎_elim (λ e. b.seen_kept x (a.covers x (inl e))) (b.covers x) m;
  work = omega (arith, a.work, b.work);
}

pub push_parents-Pushes :
    (nodes ps : List Str) (s : Search)
    → ((p : Str) → In p ps → In p nodes)
    → Pushes nodes ps s (push_parents ps s)
unfolding push_parents one
push_parents-Pushes nodes [] s inside = record {
  memo = refl;
  seen_sound = λ x m. inl m;
  stack_sound = λ x m. inl m;
  seen_kept = λ x m. m;
  stack_kept = λ x m. m;
  queued = λ x m. inl m;
  covers = λ x m. absurd m;
  work = omega arith;
}
push_parents-Pushes nodes (p ∷ ps) s inside =
    Pushes-trans nodes p ps s (one p s) _ (one-Pushes nodes p s (inside p (inl refl)))
      (push_parents-Pushes nodes ps (one p s) (λ q m. inside q (inr m)))
