-- ===== src/Pruning/Compare.antt =====
-- Comparisons compose.
use reflake.Prelude.{
  ◌≡◌, refl, sym, subst, ◌∙◌, ap, Bool, true, false, Bool-cases, inl, inr, Option, none, some,
}
use reflake.Pruning.{Value, Sign, minus, plus, sign, compare_values}
use reflake.Pruning.Order.{Kind, kind_of}

-- What two comparisons in a row say of the ends.
abbrev pub join : Sign → Sign → Option Sign
join Sign.zero t = some t
join minus Sign.zero = some minus
join minus minus = some minus
join minus plus = none
join plus Sign.zero = some plus
join plus plus = some plus
join plus minus = none

abbrev pub flip : Sign → Sign
flip minus = plus
flip Sign.zero = Sign.zero
flip plus = minus

sign-flip : (a b : Bool) → sign b a ≡ flip (sign a b)
unfolding sign
sign-flip true true = refl
sign-flip true false = refl
sign-flip false true = refl
sign-flip false false = refl

module _ (k : Kind) where
  abbrev order_of : k.Carrier → k.Carrier → Sign
  order_of a b = sign (k.lt b a) (k.lt a b)

  data Tri (a b : k.Carrier) : Type 0 where
    below : k.lt a b ≡ true → order_of a b ≡ minus → Tri a b
    same : a ≡ b → Tri a b
    above : k.lt b a ≡ true → order_of a b ≡ plus → Tri a b

  contrary : (a b : k.Carrier) → k.lt a b ≡ true → k.lt b a ≡ true → ⊥
  contrary a b h h' = cc (k.order.trans a b a h h', k.order.irrefl a)

  tri : (a b : k.Carrier) → Tri a b
  unfolding sign
  tri a b = elim (Bool-cases (k.lt a b)) [
    | inl h ↦ elim (Bool-cases (k.lt b a)) [
      | inl h' ↦ absurd (contrary a b h h')
      | inr h' ↦ below h (rw (h, h') refl)
    ]
    | inr h ↦ elim (Bool-cases (k.lt b a)) [
      | inl h' ↦ above h' (rw (h, h') refl)
      | inr h' ↦ same (k.order.total a b h h')
    ]
  ]

  below_order : (a b : k.Carrier) → k.lt a b ≡ true → order_of a b ≡ minus
  unfolding sign
  below_order a b h = elim (Bool-cases (k.lt b a)) [
    | inl h' ↦ absurd (contrary a b h h')
    | inr h' ↦ rw (h, h') refl
  ]

  above_order : (a b : k.Carrier) → k.lt b a ≡ true → order_of a b ≡ plus
  unfolding sign
  above_order a b h = elim (Bool-cases (k.lt a b)) [
    | inl h' ↦ absurd (contrary a b h' h)
    | inr h' ↦ rw (h, h') refl
  ]

  same_order : (a : k.Carrier) → order_of a a ≡ Sign.zero
  unfolding sign
  same_order a = rw (k.order.irrefl a) refl

  order-join :
      (a b c : k.Carrier) (u : Sign)
      → join (order_of a b) (order_of b c) ≡ some u
      → order_of a c ≡ u
  order-join a b c u h = go (tri a b) (tri b c)
    where
      given : (s t : Sign) → order_of a b ≡ s → order_of b c ≡ t → join s t ≡ some u
      given s t p q =
          subst (λ x. join x t ≡ some u) p (subst (λ y. join (order_of a b) y ≡ some u) q h)

      ends :
          (v : Sign) → order_of a c ≡ v → ◌≡◌ {A = Option Sign} (some v) (some u) → order_of a c ≡ u
      ends v p q = cc

      go : Tri a b → Tri b c → order_of a c ≡ u
      go (same e) q =
          ends (order_of b c) (ap (λ z. order_of z c) e)
            (given Sign.zero (order_of b c) (ap (λ z. order_of z b) e ∙ same_order b) refl)
      go (below l e) (same e') =
          ends minus (subst (λ z. order_of a z ≡ minus) e' e)
            (given minus Sign.zero e (subst (λ z. order_of b z ≡ Sign.zero) e' (same_order b)))
      go (above l e) (same e') =
          ends plus (subst (λ z. order_of a z ≡ plus) e' e)
            (given plus Sign.zero e (subst (λ z. order_of b z ≡ Sign.zero) e' (same_order b)))
      go (below l e) (below l' e') =
          ends minus (below_order a c (k.order.trans a b c l l')) (given minus minus e e')
      go (below l e) (above l' e') = absurd (cc (given minus plus e e'))
      go (above l e) (below l' e') = absurd (cc (given plus minus e e'))
      go (above l e) (above l' e') =
          ends plus (above_order a c (k.order.trans c b a l' l)) (given plus plus e e')

some_injective : {s t : Sign} → ◌≡◌ {A = Option Sign} (some s) (some t) → s ≡ t
some_injective e = cc

-- Two comparisons in a row give the one of the ends.
pub compare_values-join :
    (x v w : Value) (s t u : Sign)
    → compare_values x v ≡ some s
    → compare_values v w ≡ some t
    → join s t ≡ some u
    → compare_values x w ≡ some u
compare_values-join x v w s t u p q j =
    let (k, a, ea) = kind_of x v s p in
    let (b, eb) = k.after a v s (ap (λ z. compare_values z v) (sym ea) ∙ p) in
    let (c, ec) = k.after b w t (ap (λ z. compare_values z w) (sym eb) ∙ q) in
    let ps : order_of k a b ≡ s = some_injective (
      sym (k.compared a b)
      ∙ ap (λ z. compare_values (k.value a) z) (sym eb)
      ∙ ap (λ z. compare_values z v) (sym ea)
      ∙ p) in
    let qs : order_of k b c ≡ t = some_injective (
      sym (k.compared b c)
      ∙ ap (λ z. compare_values (k.value b) z) (sym ec)
      ∙ ap (λ z. compare_values z w) (sym eb)
      ∙ q) in
    ap (λ z. compare_values z w) ea
    ∙ ap (λ z. compare_values (k.value a) z) ec
    ∙ k.compared a c
    ∙ ap some (
        order-join k a b c u (
          subst (λ z. join z (order_of k b c) ≡ some u) (sym ps)
            (subst (λ z. join s z ≡ some u) (sym qs) j)))

pub compare_values-flip :
    (x v : Value) (s : Sign) → compare_values x v ≡ some s → compare_values v x ≡ some (flip s)
compare_values-flip x v s p =
    let (k, a, ea) = kind_of x v s p in
    let (b, eb) = k.after a v s (ap (λ z. compare_values z v) (sym ea) ∙ p) in
    let ps : order_of k a b ≡ s = some_injective (
      sym (k.compared a b)
      ∙ ap (λ z. compare_values (k.value a) z) (sym eb)
      ∙ ap (λ z. compare_values z v) (sym ea)
      ∙ p) in
    ap (λ z. compare_values z x) eb
    ∙ ap (λ z. compare_values (k.value b) z) ea
    ∙ k.compared b a
    ∙ ap some (sign-flip (k.lt b a) (k.lt a b) ∙ ap flip ps)
