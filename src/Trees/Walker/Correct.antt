-- ===== src/Trees/Walker/Correct.antt =====
-- The walks terminate and yield the leaves of the tree that are wanted, in the tree's order.
use reflake.Prelude.{
  Str, ℕ, zero, suc, ◌+◌, List, [], ◌∷◌, ◌++◌, All, ◌≡◌, refl, sym, ap, subst, ◌∙◌, Bool, true,
  false, Bool-cases, inl, inr, drop, lit, arith,
}
use reflake.Domain.{Result, ok, ◌>>=◌}
use reflake.Trees.Entry.{Entry, EntryKind, is_subtree}
use reflake.Trees.Walker.{Frame, child_prefix, walk_frames}
use reflake.Trees.Walker.Flatten.{
  Found, flatten_entries, flatten, filter_paths, filter_paths-append, prepend, prepend-nil,
  prepend-append,
}
use reflake.Trees.Walker.Round.{
  bind-ok, drop-next, frame, round, walk-round, round-end, round-leaf, round-subtree, round-skipped,
}

append_assoc : (xs ys zs : Str) → (xs ++ ys) ++ zs ≡ xs ++ (ys ++ zs)
append_assoc [] ys zs = refl
append_assoc (x ∷ xs) ys zs = ap (λ l. x ∷ l) (append_assoc xs ys zs)

append_nil : (xs : Str) → xs ++ [] ≡ xs
append_nil [] = refl
append_nil (x ∷ xs) = ap (λ l. x ∷ l) (append_nil xs)

module _ (load : Str → Result (List Entry)) where
  ok_injective {ℓ} : {A : Type ℓ} {a b : A} → ◌≡◌ {A = Result A} (ok a) (ok b) → a ≡ b
  ok_injective e = cc

  -- What flattening a list gives, by its first entry.
  flatten-nil :
      (below : Str → Str → Result Found) (p : Str) (out : Found)
      → flatten_entries below p [] ≡ ok out
      → out ≡ []
  unfolding flatten_entries
  flatten-nil below p out e = sym (ok_injective e)

  entries-leaf :
      (below : Str → Str → Result Found) (p : Str) (e : Entry) (es : List Entry)
      → is_subtree e ≡ false
      → flatten_entries below p (e ∷ es)
        ≡ (flatten_entries below p es >>= λ found. ok ((p ++ e.path, e) ∷ found))
  unfolding flatten_entries
  entries-leaf below p e es h = rw (h, flatten_entries) refl

  flatten-leaf :
      (below : Str → Str → Result Found) (p : Str) (e : Entry) (es : List Entry) (out : Found)
      → is_subtree e ≡ false
      → flatten_entries below p (e ∷ es) ≡ ok out
      → (rest : Found) × (flatten_entries below p es ≡ ok rest) × (out ≡ (p ++ e.path, e) ∷ rest)
  flatten-leaf below p e es out n h =
      let (rest, r, q) =
        bind-ok (flatten_entries below p es) (λ found. ok ((p ++ e.path, e) ∷ found)) out
          (sym (entries-leaf below p e es n) ∙ h) in
      (rest, r, sym (ok_injective q))

  entries-subtree :
      (below : Str → Str → Result Found) (p : Str) (e : Entry) (es : List Entry)
      → is_subtree e ≡ true
      → flatten_entries below p (e ∷ es) ≡ (
          below e.hash (child_prefix p e) >>= λ inner.
          flatten_entries below p es >>= λ found. ok (inner ++ found))
  unfolding flatten_entries
  entries-subtree below p e es h = rw (h, flatten_entries) refl

  flatten-subtree :
      (below : Str → Str → Result Found) (p : Str) (e : Entry) (es : List Entry) (out : Found)
      → is_subtree e ≡ true
      → flatten_entries below p (e ∷ es) ≡ ok out
      → (inner rest : Found) × (below e.hash (child_prefix p e) ≡ ok inner)
        × (flatten_entries below p es ≡ ok rest)
        × (out ≡ inner ++ rest)
  flatten-subtree below p e es out y h =
      let (inner, r, q) =
        bind-ok (below e.hash (child_prefix p e)) _ out
          (sym (entries-subtree below p e es y) ∙ h) in
      let (rest, r', q') =
        bind-ok (flatten_entries below p es) (λ found. ok (inner ++ found)) out q in
      (inner, rest, r, r', sym (ok_injective q'))

  flatten-zero : (h p : Str) (out : Found) → flatten load zero h p ≡ ok out → ⊥
  unfolding flatten
  flatten-zero h p out e = cc

  flatten-node :
      (depth : ℕ) (h p : Str) (out : Found)
      → flatten load (suc depth) h p ≡ ok out
      → (entries : List Entry) × (load h ≡ ok entries)
        × (flatten_entries (flatten load depth) p entries ≡ ok out)
  unfolding flatten
  flatten-node depth h p out e = bind-ok (load h) (flatten_entries (flatten load depth) p) out e

  -- Every path below a node starts with the node's path.
  abbrev pub Prefixed : Str → Found → Type 0
  Prefixed p out = All (λ (path, _). (rest : Str) × (path ≡ p ++ rest)) out

  child_prefix-append : (p : Str) (e : Entry) → (rest : Str) × (child_prefix p e ≡ p ++ rest)
  unfolding child_prefix
  child_prefix-append p e = go e.kind refl
    where
      go : (k : EntryKind) → e.kind ≡ k → (rest : Str) × (child_prefix p e ≡ p ++ rest)
      go EntryKind.shard q = ([], rw q (sym (append_nil p)))
      go EntryKind.tree q = (e.path ++ lit "/", rw q (append_assoc p e.path (lit "/")))
      go EntryKind.blob q = (e.path ++ lit "/", rw q (append_assoc p e.path (lit "/")))
      go EntryKind.meta q = (e.path ++ lit "/", rw q (append_assoc p e.path (lit "/")))
      go EntryKind.bp q = (e.path ++ lit "/", rw q (append_assoc p e.path (lit "/")))
      go EntryKind.mp q = (e.path ++ lit "/", rw q (append_assoc p e.path (lit "/")))

  Prefixed-append :
      (p : Str) (x : Entry) (inner rest : Found)
      → Prefixed (child_prefix p x) inner
      → Prefixed p rest
      → Prefixed p (inner ++ rest)
  Prefixed-append p x [] rest h k = k
  Prefixed-append p x ((path, e) ∷ inner) rest ((r, q), hs) k =
      let (r', q') = child_prefix-append p x in
      (
        (r' ++ r, q ∙ ap (λ l. l ++ r) q' ∙ append_assoc p r' r),
        Prefixed-append p x inner rest hs k,
      )

  module _ (wanted skipped : Str → Bool)
      (sound : (p rest : Str) → skipped p ≡ true → wanted (p ++ rest) ≡ false) where
    filter-Prefixed :
        (p : Str) (out : Found) → skipped p ≡ true → Prefixed p out → filter_paths wanted out ≡ []
    filter-Prefixed p [] y h = refl
    filter-Prefixed p ((path, e) ∷ out) y ((rest, q), hs) =
        rw (ap wanted q ∙ sound p rest y) (filter-Prefixed p out y hs)

    -- A frame's rounds yield the wanted part of what is left of its node, and then the stack below
    -- it is walked.
    abbrev pub Emits : Str → Str → ℕ → Found → Type 0
    Emits h p i out =
        (rounds : ℕ) × ((n fuel : ℕ) (st : List Frame)
          → n ≡ suc (rounds + fuel)
          → walk_frames load wanted skipped n (frame load wanted skipped h p i ∷ st)
            ≡ prepend (filter_paths wanted out) (walk_frames load wanted skipped fuel st))

    step :
        (n m : ℕ) (h p : Str) (i : ℕ) (entries es : List Entry) (st : List Frame)
        → n ≡ suc m
        → load h ≡ ok entries
        → drop i entries ≡ es
        → walk_frames load wanted skipped n (frame load wanted skipped h p i ∷ st)
          ≡ round load wanted skipped m h p i es st
    step n m h p i entries es st q e d =
        subst
          (λ k.
            walk_frames load wanted skipped k (frame load wanted skipped h p i ∷ st)
            ≡ round load wanted skipped m h p i es st)
          (sym q) (walk-round load wanted skipped m h p i entries es st e d)

    module _ (depth : ℕ)
        (node : (h p : Str) (out : Found)
          → flatten load depth h p ≡ ok out
          → Emits h p 0 out × Prefixed p out)
        (h p : Str) (entries : List Entry) (e : load h ≡ ok entries) where
      frame-end : (i : ℕ) → drop i entries ≡ [] → Emits h p i []
      frame-end i d = (
        0,
        λ n fuel st q.
            step n fuel h p i entries [] st (omega (arith, q)) e d
            ∙ round-end load wanted skipped fuel h p i st
            ∙ sym (prepend-nil _),
      )

      frame-leaf :
          (i : ℕ) (x : Entry) (es : List Entry) (rest : Found)
          → drop i entries ≡ x ∷ es
          → is_subtree x ≡ false
          → Emits h p (i + 1) rest
          → Emits h p i ((p ++ x.path, x) ∷ rest)
      frame-leaf i x es rest d n (rounds, f) = (
        rounds,
        λ k fuel st q.
            let m = rounds + fuel in
            step k m h p i entries (x ∷ es) st q e d
            ∙ round-leaf load wanted skipped m h p i x es st n
            ∙ ap (prepend (filter_paths wanted ((p ++ x.path, x) ∷ []))) (
                sym (step (suc m) m h p (i + 1) entries es st refl e (drop-next i entries x es d))
                ∙ f (suc m) fuel st refl)
            ∙ prepend-append (filter_paths wanted ((p ++ x.path, x) ∷ []))
                (filter_paths wanted rest) _
            ∙ ap (λ l. prepend l (walk_frames load wanted skipped fuel st))
                (sym (filter_paths-append wanted ((p ++ x.path, x) ∷ []) rest)),
      )

      frame-subtree :
          (i : ℕ) (x : Entry) (es : List Entry) (inner rest : Found)
          → drop i entries ≡ x ∷ es
          → is_subtree x ≡ true
          → Emits x.hash (child_prefix p x) 0 inner
          → Prefixed (child_prefix p x) inner
          → Emits h p (i + 1) rest
          → Emits h p i (inner ++ rest)
      frame-subtree i x es inner rest d y (rc, fc) below (re, fe) =
          elim (Bool-cases (skipped (child_prefix p x))) [
            | inl s ↦ (
              suc re,
              λ k fuel st q.
                  step k (suc (re + fuel)) h p i entries (x ∷ es) st (omega (arith, q)) e d
                  ∙ round-skipped load wanted skipped (suc (re + fuel)) h p i x es st y s
                  ∙ fe (suc (re + fuel)) fuel st refl
                  ∙ ap (λ l. prepend l (walk_frames load wanted skipped fuel st))
                      (sym (
                        filter_paths-append wanted inner rest
                        ∙ ap (λ l. l ++ filter_paths wanted rest)
                            (filter-Prefixed (child_prefix p x) inner s below))),
            )
            | inr s ↦ (
              suc rc + suc re,
              λ k fuel st q.
                  let m = suc (rc + (suc re + fuel)) in
                  step k m h p i entries (x ∷ es) st (omega (arith, q)) e d
                  ∙ round-subtree load wanted skipped m h p i x es st y s
                  ∙ fc m (suc re + fuel) _ refl
                  ∙ ap (prepend (filter_paths wanted inner))
                      (fe (suc re + fuel) fuel st (omega arith))
                  ∙ prepend-append (filter_paths wanted inner) (filter_paths wanted rest) _
                  ∙ ap (λ l. prepend l (walk_frames load wanted skipped fuel st))
                      (sym (filter_paths-append wanted inner rest)),
            )
          ]

      frame_lem :
          (i : ℕ) (es : List Entry) (out : Found)
          → drop i entries ≡ es
          → flatten_entries (flatten load depth) p es ≡ ok out
          → Emits h p i out × Prefixed p out
      frame_lem i [] out d r =
          subst (λ o. Emits h p i o × Prefixed p o) (sym (flatten-nil (flatten load depth) p out r))
            (frame-end i d, tt)
      frame_lem i (x ∷ es) out d r = elim (Bool-cases (is_subtree x)) [
        | inr n ↦
            let (rest, r', q) = flatten-leaf (flatten load depth) p x es out n r in
            let (emits, below) = frame_lem (i + 1) es rest (drop-next i entries x es d) r' in
            subst (λ o. Emits h p i o × Prefixed p o) (sym q)
              (frame-leaf i x es rest d n emits, ((x.path, refl), below))
        | inl y ↦
            let (inner, rest, c, r', q) = flatten-subtree (flatten load depth) p x es out y r in
            let (emits, below) = frame_lem (i + 1) es rest (drop-next i entries x es d) r' in
            let (emits', below') = node x.hash (child_prefix p x) inner c in
            subst (λ o. Emits h p i o × Prefixed p o) (sym q)
              (
                frame-subtree i x es inner rest d y emits' below' emits,
                Prefixed-append p x inner rest below' below,
              )
      ]

    pub node_lem :
        (depth : ℕ) (h p : Str) (out : Found)
        → flatten load depth h p ≡ ok out
        → Emits h p 0 out × Prefixed p out
    node_lem zero h p out e = absurd (flatten-zero h p out e)
    node_lem (suc depth) h p out e =
        let (entries, r, q) = flatten-node depth h p out e in
        frame_lem depth (node_lem depth) h p entries r 0 entries out refl q
