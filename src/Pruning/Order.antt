-- ===== src/Pruning/Order.antt =====
-- The comparison of two values is an order on each kind of value.
use reflake.Prelude.{Str, ◌≡◌, ◌≢◌, refl, ap, Bool, true, false, some, nat_eq, str_lt, arith}
use reflake.Prelude.Order.{str_lt_irrefl, str_lt_trans, str_lt-total}
use reflake.Pruning.{
  ℤ, pos, negsuc, int_lt, bool_lt, Value, null, boolean, number, text, Sign, plus, sign,
  compare_values,
}

-- A strict total order, as a test.
pub record IsOrder {A : Type 0} (lt : A → A → Bool) : Type 0 where
  pub irrefl : (a : A) → lt a a ≡ false
  pub trans : (a b c : A) → lt a b ≡ true → lt b c ≡ true → lt a c ≡ true
  pub total : (a b : A) → lt a b ≡ false → lt b a ≡ false → a ≡ b

bool_lt_trans : (a b c : Bool) → bool_lt a b ≡ true → bool_lt b c ≡ true → bool_lt a c ≡ true
unfolding bool_lt
bool_lt_trans true b c h k = cc
bool_lt_trans false true c h k = cc
bool_lt_trans false false c h k = cc

bool_lt-total : (a b : Bool) → bool_lt a b ≡ false → bool_lt b a ≡ false → a ≡ b
unfolding bool_lt
bool_lt-total true true h k = refl
bool_lt-total true false h k = cc
bool_lt-total false true h k = cc
bool_lt-total false false h k = refl

bool_lt_irrefl : (a : Bool) → bool_lt a a ≡ false
unfolding bool_lt
bool_lt_irrefl true = refl
bool_lt_irrefl false = refl

int_lt_irrefl : (a : ℤ) → int_lt a a ≡ false
unfolding int_lt
int_lt_irrefl (pos a) = ground arith
int_lt_irrefl (negsuc a) = ground arith

int_lt_trans : (a b c : ℤ) → int_lt a b ≡ true → int_lt b c ≡ true → int_lt a c ≡ true
unfolding int_lt
int_lt_trans (pos a) (pos b) (pos c) h k = ground arith
int_lt_trans (pos a) (pos b) (negsuc c) h k = cc
int_lt_trans (pos a) (negsuc b) c h k = cc
int_lt_trans (negsuc a) b (pos c) h k = refl
int_lt_trans (negsuc a) (pos b) (negsuc c) h k = cc
int_lt_trans (negsuc a) (negsuc b) (negsuc c) h k = ground arith

int_lt-total : (a b : ℤ) → int_lt a b ≡ false → int_lt b a ≡ false → a ≡ b
unfolding int_lt
int_lt-total (pos a) (pos b) h k = ap pos (ground arith)
int_lt-total (pos a) (negsuc b) h k = cc
int_lt-total (negsuc a) (pos b) h k = cc
int_lt-total (negsuc a) (negsuc b) h k = ap negsuc (ground arith)

-- One of the three kinds of values that can be compared.
pub record Kind : Type 1 where
  pub Carrier : Type 0
  pub lt : Carrier → Carrier → Bool
  pub order : IsOrder lt
  pub value : Carrier → Value
  pub compared :
      (a b : Carrier) → compare_values (value a) (value b) ≡ some (sign (lt b a) (lt a b))
  pub before :
      (v : Value) (b : Carrier) (s : Sign)
      → compare_values v (value b) ≡ some s
      → (a : Carrier) × (v ≡ value a)
  pub after :
      (a : Carrier) (v : Value) (s : Sign)
      → compare_values (value a) v ≡ some s
      → (b : Carrier) × (v ≡ value b)

booleans : Kind
unfolding compare_values
booleans = record {
  Carrier = Bool;
  lt = bool_lt;
  order = record { irrefl = bool_lt_irrefl; trans = bool_lt_trans; total = bool_lt-total };
  value = boolean;
  compared = λ a b. refl;
  before = elim [
    | null ↦ λ b s e. absurd (cc e)
    | boolean a ↦ λ b s e. (a, refl)
    | number a ↦ λ b s e. absurd (cc e)
    | text a ↦ λ b s e. absurd (cc e)
  ];
  after = λ a. elim [
    | null ↦ λ s e. absurd (cc e)
    | boolean b ↦ λ s e. (b, refl)
    | number b ↦ λ s e. absurd (cc e)
    | text b ↦ λ s e. absurd (cc e)
  ];
}

numbers : Kind
unfolding compare_values
numbers = record {
  Carrier = ℤ;
  lt = int_lt;
  order = record { irrefl = int_lt_irrefl; trans = int_lt_trans; total = int_lt-total };
  value = number;
  compared = λ a b. refl;
  before = elim [
    | null ↦ λ b s e. absurd (cc e)
    | boolean a ↦ λ b s e. absurd (cc e)
    | number a ↦ λ b s e. (a, refl)
    | text a ↦ λ b s e. absurd (cc e)
  ];
  after = λ a. elim [
    | null ↦ λ s e. absurd (cc e)
    | boolean b ↦ λ s e. absurd (cc e)
    | number b ↦ λ s e. (b, refl)
    | text b ↦ λ s e. absurd (cc e)
  ];
}

texts : Kind
unfolding compare_values
texts = record {
  Carrier = Str;
  lt = str_lt;
  order = record { irrefl = str_lt_irrefl; trans = str_lt_trans; total = str_lt-total };
  value = text;
  compared = λ a b. refl;
  before = elim [
    | null ↦ λ b s e. absurd (cc e)
    | boolean a ↦ λ b s e. absurd (cc e)
    | number a ↦ λ b s e. absurd (cc e)
    | text a ↦ λ b s e. (a, refl)
  ];
  after = λ a. elim [
    | null ↦ λ s e. absurd (cc e)
    | boolean b ↦ λ s e. absurd (cc e)
    | number b ↦ λ s e. absurd (cc e)
    | text b ↦ λ s e. (b, refl)
  ];
}

-- A value that compares with another is of a kind.
pub kind_of :
    (v w : Value) (s : Sign)
    → compare_values v w ≡ some s
    → (k : Kind) × (a : k.Carrier) × (v ≡ k.value a)
unfolding compare_values booleans numbers texts
kind_of null w s e = absurd (cc e)
kind_of (boolean a) w s e = (booleans, a, refl)
kind_of (number a) w s e = (numbers, a, refl)
kind_of (text a) w s e = (texts, a, refl)

-- The first value is at most the second.
abbrev pub IsAtMost : Value → Value → Type 0
IsAtMost v w = (s : Sign) × (compare_values v w ≡ some s) × (s ≢ plus)
