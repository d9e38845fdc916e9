-- ===== src/Samples/History.antt =====
-- The sample repository is a well-formed history.
use reflake.Prelude.{
  Str, ◌<◌, [], ◌∷◌, map, In, ◌≡◌, refl, sym, subst, inl, inr, none, some, list_eq, nat_eq, arith,
}
use reflake.Graph.Generation.{IsHistory, maximum, derived_generation}
use reflake.Samples.{a_id, b_id, c_id, m_id, m_commit, nodes, gen, read, each, known}

gen-less :
    ((gen a_id < gen b_id) × (gen a_id < gen c_id))
    × ((gen b_id < gen m_id) × (gen c_id < gen m_id))
unfolding list_eq nat_eq
gen-less = ((omega arith, omega arith), (omega arith, omega arith))

gen-is : ((gen a_id ≡ 0) × (gen b_id ≡ 1)) × ((gen c_id ≡ 1) × (gen m_id ≡ 2))
unfolding list_eq nat_eq
gen-is = ((refl, refl), (refl, refl))

gen-m : gen m_id ≡ derived_generation (map gen m_commit.parents)
unfolding derived_generation maximum list_eq nat_eq
gen-m = refl

one_parent : (P : Str → Type 0) (p q : Str) → P q → In p (q ∷ []) → P p
one_parent P p q h (inl e) = subst P (sym e) h
one_parent P p q h (inr n) = absurd n

two_parents : (P : Str → Type 0) (p q r : Str) → P q → P r → In p (q ∷ r ∷ []) → P p
two_parents P p q r h k (inl e) = subst P (sym e) h
two_parents P p q r h k (inr (inl e)) = subst P (sym e) k
two_parents P p q r h k (inr (inr n)) = absurd n

pub history : IsHistory read nodes gen
history = record {
  known = λ x m. (let (c, r) = known x m in (some c, r));
  closed = λ x p c m r n.
      each (λ x c. In p c.parents → In p nodes) (λ n. absurd n)
        (one_parent (λ y. In y nodes) p a_id (inl refl))
        (one_parent (λ y. In y nodes) p a_id (inl refl))
        (two_parents (λ y. In y nodes) p b_id c_id (inr (inl refl)) (inr (inr (inl refl)))) x c m r
        n;
  missing = λ x m r. (let (c, r') = known x m in cc);
  stored = λ x c g m r e.
      each (λ x c. c.generation ≡ some g → gen x ≡ g) (λ e. cc gen-is.0.0) (λ e. cc gen-is.0.1)
        (λ e. cc gen-is.1.0) (λ e. absurd (cc e)) x c m r e;
  derived = λ x c m r e.
      each (λ x c. c.generation ≡ none → gen x ≡ derived_generation (map gen c.parents))
        (λ e. absurd (cc e)) (λ e. absurd (cc e)) (λ e. absurd (cc e)) (λ e. gen-m) x c m r e;
  grows = λ x p c m r n.
      each (λ x c. In p c.parents → gen p < gen x) (λ n. absurd n)
        (one_parent (λ y. gen y < gen b_id) p a_id gen-less.0.0)
        (one_parent (λ y. gen y < gen c_id) p a_id gen-less.0.1)
        (two_parents (λ y. gen y < gen m_id) p b_id c_id gen-less.1.0 gen-less.1.1) x c m r n;
}

pub deep : (y : Str) → In y nodes → gen y < 3
deep y (inl e) = subst (λ z. gen z < 3) (sym e) (omega (arith, gen-is.0.0))
deep y (inr (inl e)) = subst (λ z. gen z < 3) (sym e) (omega (arith, gen-is.0.1))
deep y (inr (inr (inl e))) = subst (λ z. gen z < 3) (sym e) (omega (arith, gen-is.1.0))
deep y (inr (inr (inr (inl e)))) = subst (λ z. gen z < 3) (sym e) (omega (arith, gen-is.1.1))
deep y (inr (inr (inr (inr n)))) = absurd n
