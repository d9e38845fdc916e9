-- ===== src/Graph/Generation/Correct.antt =====
-- The memo never changes an answer, and the recursion is no deeper than the generation.
use reflake.Prelude.{
  Str, ℕ, zero, suc, ◌<◌, List, [], ◌∷◌, map, In, inl, inr, Option, none, some, Option-cases, ◌≡◌,
  refl, list_eq, nat_eq, arith,
}
use reflake.Prelude.Dict.{get, put, get-put}
use reflake.Domain.{CommitObject, Result, ok}
use reflake.Graph.Generation.{Memo, derived_generation, of_all, of, IsHistory}

module _ (gen : Str → ℕ) where
  -- Every remembered generation is the right one.
  abbrev pub IsMemo : Memo → Type 0
  IsMemo memo = (x : Str) (g : ℕ) → get memo x ≡ some g → gen x ≡ g

  put-IsMemo : (memo : Memo) (x : Str) (g : ℕ) → gen x ≡ g → IsMemo memo → IsMemo (put memo x g)
  put-IsMemo memo x g e h y k found = ground (arith, get-put memo x y g, h y k)

  -- `f` answers with the generation, and keeps the memo right.
  abbrev Answers : (Str → Memo → Result (ℕ × Memo)) → Str → Type 0
  Answers f x =
      (memo : Memo) → IsMemo memo → (memo' : Memo) × (f x memo ≡ ok (gen x, memo')) × IsMemo memo'

  of_all-eq-map :
      (f : Str → Memo → Result (ℕ × Memo)) (ps : List Str)
      → ((p : Str) → In p ps → Answers f p)
      → (memo : Memo) → IsMemo memo
      → (memo' : Memo) × (of_all f ps memo ≡ ok (map gen ps, memo')) × IsMemo memo'
  unfolding of_all
  of_all-eq-map f [] h memo right = (memo, refl, right)
  of_all-eq-map f (p ∷ ps) h memo right =
      let (memo', e, right') = h p (inl refl) memo right in
      let (memo'', e', right'') = of_all-eq-map f ps (λ q m. h q (inr m)) memo' right' in
      (memo'', rw (e, e'), right'')

  module _ (read : Str → Result (Option CommitObject)) (nodes : List Str)
      (history : IsHistory read nodes gen) where
    abbrev Remembered : ℕ → Str → Memo → Type 0
    Remembered depth x memo =
        (memo' : Memo) × (of read depth x memo ≡ ok (gen x, memo')) × IsMemo memo'

    of_unknown :
        (depth : ℕ) (x : Str) (memo : Memo) (o : Option CommitObject)
        → ((c : CommitObject) (p : Str)
            → read x ≡ ok (some c)
            → In p c.parents
            → Answers (of read depth) p)
        → In x nodes
        → IsMemo memo
        → get memo x ≡ none
        → read x ≡ ok o
        → Remembered (suc depth) x memo
    unfolding of
    of_unknown depth x memo none below m right e r =
        let g = history.missing x m r in
        (put memo x 0, simp (of, e, r, g), put-IsMemo memo x 0 g right)
    of_unknown depth x memo (some c) below m right e r = elim (Option-cases c.generation) [
      | inr (g, s) ↦
          let eq = history.stored x c g m r s in
          (put memo x g, simp (of, e, r, s, eq), put-IsMemo memo x g eq right)
      | inl s ↦
          let (memo', all, right') =
            of_all-eq-map (of read depth) c.parents (λ p n. below c p r n) memo right in
          let eq = history.derived x c m r s in
          (
            put memo' x (derived_generation (map gen c.parents)),
            simp (of, e, r, s, all, eq),
            put-IsMemo memo' x _ eq right',
          )
    ]

    -- In a history `of` answers with the generation, whether it was remembered, stored or has to be
    -- derived, if the recursion may go deeper than it. It remembers nothing wrong.
    pub of_lem :
        (depth : ℕ) (x : Str)
        → In x nodes
        → gen x < depth
        → (memo : Memo) → IsMemo memo
        → (memo' : Memo) × (of read depth x memo ≡ ok (gen x, memo')) × IsMemo memo'
    unfolding of
    of_lem zero x m lt memo right = absurd (omega arith)
    of_lem (suc depth) x m lt memo right = elim (Option-cases (get memo x)) [
      | inr (g, e) ↦ (memo, simp (of, e, right x g e), right)
      | inl e ↦
          let (o, r) = history.known x m in
          of_unknown depth x memo o
            (λ c p r' n memo' right'.
              of_lem depth p (history.closed x p c m r' n)
                (omega (arith, history.grows x p c m r' n)) memo' right')
            m right e r
    ]
