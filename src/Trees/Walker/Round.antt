-- ===== src/Trees/Walker/Round.antt =====
-- One round of the walk, by the entry at which it resumes.
use reflake.Prelude.{
  Str, ℕ, zero, suc, ◌+◌, List, [], ◌∷◌, ◌++◌, ◌≡◌, refl, sym, subst, Option, none, some, Bool,
  true, false, Bool-cases, inl, inr, drop, arith,
}
use reflake.Domain.{Result, ok, raise, diverge, ◌>>=◌}
use reflake.Trees.Entry.{Entry, is_subtree}
use reflake.Trees.Walker.{Frame, child_prefix, scan, push_frames, walk_frames}
use reflake.Trees.Walker.Flatten.{Found, filter_paths, prepend, prepend-nil, prepend-append}

pub bind-ok {ℓ} :
    {A : Type ℓ} {B : Type 0} (r : Result A) (f : A → Result B) (b : B)
    → (r >>= f) ≡ ok b
    → (a : A) × (r ≡ ok a) × (f a ≡ ok b)
bind-ok (ok a) f b h = (a, refl, h)
bind-ok (raise e) f b h = absurd (cc h)
bind-ok diverge f b h = absurd (cc h)

drop-suc :
    (i : ℕ) (entries : List Entry) (e : Entry) (es : List Entry)
    → drop i entries ≡ e ∷ es
    → drop (suc i) entries ≡ es
drop-suc zero [] e es h = cc
drop-suc zero (x ∷ entries) e es h = cc
drop-suc (suc i) [] e es h = cc
drop-suc (suc i) (x ∷ entries) e es h = drop-suc i entries e es h

pub drop-next :
    (i : ℕ) (entries : List Entry) (e : Entry) (es : List Entry)
    → drop i entries ≡ e ∷ es
    → drop (i + 1) entries ≡ es
drop-next i entries e es h =
    let same : suc i ≡ i + 1 = omega arith in
    subst (λ j. drop j entries ≡ es) same (drop-suc i entries e es h)

module _ (load : Str → Result (List Entry)) (wanted skipped : Str → Bool) where
  abbrev pub frame : Str → Str → ℕ → Frame
  frame h p i = record { current_hash = h; prefix = p; resume_index = i }

  -- A round at a frame, given the entries that are left of the node.
  abbrev pub round : ℕ → Str → Str → ℕ → List Entry → List Frame → Result Found
  round fuel h p i es st =
      let (found, end) = scan wanted p i es in
      prepend found
        (walk_frames load wanted skipped fuel (push_frames skipped (frame h p i) end st))

  pub walk-round :
      (fuel : ℕ) (h p : Str) (i : ℕ) (entries es : List Entry) (st : List Frame)
      → load h ≡ ok entries
      → drop i entries ≡ es
      → walk_frames load wanted skipped (suc fuel) (frame h p i ∷ st) ≡ round fuel h p i es st
  unfolding walk_frames
  walk-round fuel h p i entries es st e d = rw e (rw d refl)

  pub round-end :
      (fuel : ℕ) (h p : Str) (i : ℕ) (st : List Frame)
      → round fuel h p i [] st ≡ walk_frames load wanted skipped fuel st
  unfolding scan push_frames
  round-end fuel h p i st = prepend-nil _

  push-same :
      (h p : Str) (i j : ℕ) (end : Option (Entry × ℕ)) (st : List Frame)
      → push_frames skipped (frame h p i) end st ≡ push_frames skipped (frame h p j) end st
  unfolding push_frames
  push-same h p i j none st = refl
  push-same h p i j (some (e, k)) st = refl

  pub round-leaf :
      (fuel : ℕ) (h p : Str) (i : ℕ) (e : Entry) (es : List Entry) (st : List Frame)
      → is_subtree e ≡ false
      → round fuel h p i (e ∷ es) st
        ≡ prepend (filter_paths wanted ((p ++ e.path, e) ∷ [])) (round fuel h p (i + 1) es st)
  unfolding scan
  round-leaf fuel h p i e es st n = elim (Bool-cases (wanted (p ++ e.path))) [
    | inl w ↦
        rw (n, w, push-same h p i (i + 1) (scan wanted p (i + 1) es).1 st)
          (sym (prepend-append ((p ++ e.path, e) ∷ []) (scan wanted p (i + 1) es).0 _))
    | inr w ↦
        rw (n, w, push-same h p i (i + 1) (scan wanted p (i + 1) es).1 st) (sym (prepend-nil _))
  ]

  pub round-subtree :
      (fuel : ℕ) (h p : Str) (i : ℕ) (e : Entry) (es : List Entry) (st : List Frame)
      → is_subtree e ≡ true
      → skipped (child_prefix p e) ≡ false
      → round fuel h p i (e ∷ es) st
        ≡ walk_frames load wanted skipped fuel
            (frame e.hash (child_prefix p e) 0 ∷ frame h p (i + 1) ∷ st)
  unfolding scan push_frames
  round-subtree fuel h p i e es st y n = rw (y, n) (prepend-nil _)

  pub round-skipped :
      (fuel : ℕ) (h p : Str) (i : ℕ) (e : Entry) (es : List Entry) (st : List Frame)
      → is_subtree e ≡ true
      → skipped (child_prefix p e) ≡ true
      → round fuel h p i (e ∷ es) st ≡ walk_frames load wanted skipped fuel (frame h p (i + 1) ∷ st)
  unfolding scan push_frames
  round-skipped fuel h p i e es st y n = rw (y, n) (prepend-nil _)
