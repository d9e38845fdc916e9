-- ===== src/Pruning/Sound.antt =====
-- A row group that is pruned holds no matching row.
use reflake.Prelude.{
  ℕ, ◌+◌, ◌<◌, ◌≤◌, List, [], ◌∷◌, In, In-All, All, length, ◌≡◌, ◌≢◌, refl, sym, ◌∙◌, ap, Bool,
  true, false, not, ◌&&◌, Bool-cases, ◌⊎◌, inl, inr, Option, none, some, ltb, if◌then◌else◌, arith,
}
use reflake.Pruning.{
  Value, null, boolean, number, text, Sign, minus, plus, Op, ColumnStats, is_below, is_above,
  is_zero, decide, decide_both, possible_in, compare_values,
}
use reflake.Pruning.Compare.{join, flip, compare_values-join, compare_values-flip}

abbrev is_null_value : Value → Bool
is_null_value null = true
is_null_value _ = false

abbrev pub count_nulls : List Value → ℕ
count_nulls [] = 0
count_nulls (v ∷ vs) = (if is_null_value v then 1 else 0) + count_nulls vs

-- Between the column's bounds.
abbrev pub IsBounded : ColumnStats → Value → Type 0
IsBounded column v =
    ((s : Sign) × (compare_values column.min v ≡ some s) × (is_above s ≡ false))
    × ((t : Sign) × (compare_values v column.max ≡ some t) × (is_above t ≡ false))

-- The statistics are those of the values: their number, the nulls among them, and bounds of the
-- others.
pub record Describes (rows : ℕ) (column : ColumnStats) (values : List Value) : Type 0 where
  pub counted : length values ≡ rows
  pub empty : count_nulls values ≡ column.nulls
  pub bounded : All (λ v. (v ≡ null) ⊎ IsBounded column v) values

-- The signs that a comparison accepts.
abbrev pub accepts : Op → Sign → Bool
accepts Op.equal s = is_zero s
accepts Op.differs s = not (is_zero s)
accepts Op.less s = is_below s
accepts Op.at_most s = not (is_above s)
accepts Op.greater s = is_above s
accepts Op.at_least s = not (is_below s)
accepts _ s = false

-- A row with the value satisfies the predicate; NULL satisfies no comparison.
abbrev pub IsMatch : Op → Value → Value → Type 0
IsMatch Op.is_null v value = v ≡ null
IsMatch Op.is_not_null v value = v ≢ null
IsMatch op v value = (s : Sign) × (compare_values v value ≡ some s) × (accepts op s ≡ true)

null_value : (v : Value) → (v ≡ null) ⊎ ((v ≢ null) × (is_null_value v ≡ false))
null_value null = inl refl
null_value (boolean b) = inr ((λ e. cc), refl)
null_value (number n) = inr ((λ e. cc), refl)
null_value (text t) = inr ((λ e. cc), refl)

count_nulls-le : (vs : List Value) → count_nulls vs ≤ length vs
count_nulls-le [] = omega arith
count_nulls-le (v ∷ vs) = ground (arith, count_nulls-le vs)

has_null : (v : Value) (vs : List Value) → In v vs → v ≡ null → 0 < count_nulls vs
has_null v [] m e = absurd m
has_null v (w ∷ vs) (inl q) e = rw (sym q ∙ e) (omega arith)
has_null v (w ∷ vs) (inr m) e = omega (arith, has_null v vs m e)

has_value :
    (v : Value) (vs : List Value) → In v vs → is_null_value v ≡ false → count_nulls vs < length vs
has_value v [] m e = absurd m
has_value v (w ∷ vs) (inl q) e =
    rw (ap is_null_value (sym q) ∙ e) (omega (arith, count_nulls-le vs))
has_value v (w ∷ vs) (inr m) e = ground (arith, has_value v vs m e)

compare-null : (w : Value) (s : Sign) → compare_values null w ≡ some s → ⊥
unfolding compare_values
compare-null w s e = cc

-- From below: what the smallest value is to the predicate's, given what a value is to both.
below_less : (s t : Sign) → is_above s ≡ false → is_below t ≡ true → join s t ≡ some minus
below_less minus minus p q = refl
below_less Sign.zero minus p q = refl
below_less plus t p q = cc
below_less s Sign.zero p q = cc
below_less s plus p q = cc

below_at_most :
    (s t : Sign)
    → is_above s ≡ false
    → is_above t ≡ false
    → (u : Sign) × (join s t ≡ some u) × (is_above u ≡ false)
below_at_most Sign.zero t p q = (t, refl, q)
below_at_most minus minus p q = (minus, refl, refl)
below_at_most minus Sign.zero p q = (minus, refl, refl)
below_at_most minus plus p q = cc
below_at_most plus t p q = cc

module _ (column : ColumnStats) (v value : Value) (within : IsBounded column v) where
  min-less :
      (t : Sign)
      → compare_values v value ≡ some t
      → is_below t ≡ true
      → compare_values column.min value ≡ some minus
  min-less t e b =
      compare_values-join column.min v value within.0.0 t minus within.0.1 e
        (below_less within.0.0 t within.0.2 b)

  min-at_most :
      (t : Sign)
      → compare_values v value ≡ some t
      → is_above t ≡ false
      → (u : Sign) × (compare_values column.min value ≡ some u) × (is_above u ≡ false)
  min-at_most t e b =
      let (u, j, ok) = below_at_most within.0.0 t within.0.2 b in
      (u, compare_values-join column.min v value within.0.0 t u within.0.1 e j, ok)

  max-at_least :
      (t : Sign)
      → compare_values v value ≡ some t
      → is_above (flip t) ≡ false
      → (u : Sign) × (compare_values column.max value ≡ some (flip u)) × (is_above u ≡ false)
  max-at_least t e b =
      let (u, j, ok) = below_at_most (flip t) within.1.0 b within.1.2 in
      (
        u,
        compare_values-flip value column.max u (
            compare_values-join value v column.max (flip t) within.1.0 u
              (compare_values-flip v value t e) within.1.1 j),
        ok,
      )

  max-greater :
      (t : Sign)
      → compare_values v value ≡ some t
      → is_above t ≡ true
      → compare_values column.max value ≡ some plus
  max-greater plus e b = compare_values-flip value column.max minus (
      compare_values-join value v column.max minus within.1.0 minus
        (compare_values-flip v value plus e) within.1.1 (joined within.1.0 within.1.2))
    where
      joined : (s : Sign) → is_above s ≡ false → join minus s ≡ some minus
      joined minus p = refl
      joined Sign.zero p = refl
      joined plus p = cc
  max-greater minus e b = cc
  max-greater Sign.zero e b = cc

  -- Between equal bounds every value is equal.
  pinned :
      (t : Sign)
      → compare_values v value ≡ some t
      → compare_values column.min value ≡ some Sign.zero
      → compare_values column.max value ≡ some Sign.zero
      → t ≡ Sign.zero
  pinned minus e p q = absurd (cc (min-less minus e refl, p))
  pinned Sign.zero e p q = refl
  pinned plus e p q = absurd (cc (max-greater plus e refl, q))

decided :
    (test : Sign → Bool) (o : Option Sign) (s : Sign)
    → o ≡ some s
    → test s ≡ true
    → decide test o ≡ some false
    → ⊥
unfolding decide
decided test o s e t h = cc (sym t ∙ some_injective (ap (decide test) (sym e) ∙ h))
  where
    some_injective : {a b : Bool} → ◌≡◌ {A = Option Bool} (some a) (some b) → a ≡ b
    some_injective q = cc

decided_both :
    (test : Sign → Sign → Bool) (o p : Option Sign) (s t : Sign)
    → o ≡ some s
    → p ≡ some t
    → test s t ≡ true
    → decide_both test o p ≡ some false
    → ⊥
unfolding decide_both
decided_both test o p s t e e' k h = cc (
    sym k
    ∙ some_injective (
        ap (λ x. decide_both test (some s) x) (sym e')
        ∙ ap (λ x. decide_both test x p) (sym e)
        ∙ h))
  where
    some_injective : {a b : Bool} → ◌≡◌ {A = Option Bool} (some a) (some b) → a ≡ b
    some_injective q = cc

not-true : (b : Bool) → not b ≡ true → b ≡ false
not-true true e = cc
not-true false e = refl

above-flip : (s : Sign) → is_above (flip s) ≡ is_below s
above-flip minus = refl
above-flip Sign.zero = refl
above-flip plus = refl

below-flip : (s : Sign) → is_below (flip s) ≡ is_above s
below-flip minus = refl
below-flip Sign.zero = refl
below-flip plus = refl

zero_is : (s : Sign) → is_zero s ≡ true → s ≡ Sign.zero
zero_is Sign.zero e = refl
zero_is minus e = cc
zero_is plus e = cc

both_zero :
    (o p : Option Sign)
    → decide_both (λ s t. not (is_zero s && is_zero t)) o p ≡ some false
    → (o ≡ some Sign.zero) × (p ≡ some Sign.zero)
unfolding decide_both
both_zero none p h = cc
both_zero (some s) none h = cc
both_zero (some Sign.zero) (some Sign.zero) h = (refl, refl)
both_zero (some Sign.zero) (some minus) h = cc
both_zero (some Sign.zero) (some plus) h = cc
both_zero (some minus) (some t) h = cc
both_zero (some plus) (some t) h = cc

-- If a column's statistics describe its values and show that the row group cannot match, then no
-- row's value satisfies the predicate, whatever its operator; NULL satisfies no comparison.
pub possible_in_lem :
    (rows : ℕ) (column : ColumnStats) (values : List Value) (op : Op) (value v : Value)
    → Describes rows column values
    → possible_in rows column op value ≡ some false
    → In v values
    → ¬ IsMatch op v value
unfolding possible_in
possible_in_lem rows column values op value v d h m k =
    elim (In-All (λ v. (v ≡ null) ⊎ IsBounded column v) v values d.bounded m) [
      | inl e ↦ on_null op e h k
      | inr within ↦ on_value op within h k
    ]
  where
    on_null :
        (op : Op)
        → v ≡ null
        → possible_in rows column op value ≡ some false
        → IsMatch op v value
        → ⊥
    on_null Op.is_null e h k = ground (arith, has_null v values m e, d.empty)
    on_null Op.is_not_null e h k = k e
    on_null Op.equal e h (s, p, q) =
        compare-null value s (ap (λ x. compare_values x value) (sym e) ∙ p)
    on_null Op.differs e h (s, p, q) =
        compare-null value s (ap (λ x. compare_values x value) (sym e) ∙ p)
    on_null Op.less e h (s, p, q) =
        compare-null value s (ap (λ x. compare_values x value) (sym e) ∙ p)
    on_null Op.at_most e h (s, p, q) =
        compare-null value s (ap (λ x. compare_values x value) (sym e) ∙ p)
    on_null Op.greater e h (s, p, q) =
        compare-null value s (ap (λ x. compare_values x value) (sym e) ∙ p)
    on_null Op.at_least e h (s, p, q) =
        compare-null value s (ap (λ x. compare_values x value) (sym e) ∙ p)

    on_value :
        (op : Op)
        → IsBounded column v
        → possible_in rows column op value ≡ some false
        → IsMatch op v value
        → ⊥
    on_value Op.is_null within h k = ground (arith, has_null v values m k, d.empty)
    on_value Op.is_not_null within h k = elim (null_value v) [
      | inl e ↦ k e
      | inr (_, e) ↦ ground (arith, has_value v values m e, d.empty, d.counted)
    ]
    on_value Op.less within h (s, p, q) =
        decided is_below _ minus (min-less column v value within s p q) refl h
    on_value Op.at_most within h (s, p, q) =
        let (u, e, b) = min-at_most column v value within s p (not-true _ q) in
        decided (λ s. not (is_above s)) _ u e (ap not b) h
    on_value Op.greater within h (s, p, q) =
        decided is_above _ plus (max-greater column v value within s p q) refl h
    on_value Op.at_least within h (s, p, q) =
        let (u, e, b) = max-at_least column v value within s p (above-flip s ∙ not-true _ q) in
        decided (λ s. not (is_below s)) _ (flip u) e (ap not (below-flip u ∙ b)) h
    on_value Op.equal within h (s, p, q) =
        let p' : compare_values v value ≡ some Sign.zero = p ∙ ap some (zero_is s q) in
        let (u, e, b) = min-at_most column v value within Sign.zero p' refl in
        let (u', e', b') = max-at_least column v value within Sign.zero p' refl in
        decided_both (λ s t. not (is_above s) && not (is_below t)) _ _ u (flip u') e e'
          (rw (b, below-flip u', b') refl) h
    on_value Op.differs within h (s, p, q) = elim (Bool-cases (ltb 0 column.nulls)) [
      | inl y ↦ cc (
          ap
            (λ b.
              if b
              then some true
              else decide_both (λ s t. not (is_zero s && is_zero t))
                  (compare_values column.min value) (compare_values column.max value))
            (sym y)
          ∙ h)
      | inr n ↦
          let (e, e') =
            both_zero (compare_values column.min value) (compare_values column.max value) (
              ap
                (λ b.
                  if b
                  then some true
                  else decide_both (λ s t. not (is_zero s && is_zero t))
                      (compare_values column.min value) (compare_values column.max value))
                (sym n)
              ∙ h) in
          cc (ap (λ x. not (is_zero x)) (pinned column v value within s p e e'), q)
    ]
