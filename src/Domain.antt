-- ===== src/Domain.antt =====
-- src/reflake/core/domain: the values that the services exchange, and the errors that they raise.
-- An exception is a value of `Error`; a message that only words the error is dropped, and one that
-- tells two errors of a class apart is kept.
use reflake.Prelude.{Str, String, Bool, ℕ, Option, List}

pub record BranchRefState : Type 0 where
  pub branch : Str
  pub commit_id : Option Str

pub record CommitObject : Type 0 where
  pub id : Str
  pub message : Str
  pub tree : Str
  pub parents : List Str
  pub created_at : Str
  pub generation : Option ℕ

pub data Error : Type 0 where
  ref_conflict : Str → String → Option Str → Option Str → Error
  non_fast_forward : Str → Option Str → Str → Error
  merge_conflict : List Str → Error
  unknown_ref : Str → Error
  empty_branch : Str → Error
  unknown_commit : Str → Error
  corrupt_commit : Str → Error
  optimistic_lock : Str → Error
  unknown_tree : Str → Error
  source_not_found : Str → Error
  file_not_found : List Str → Error
  value_error : String → Error
  assertion_failed : Error

-- What a call returns, raises, or fails to do within its fuel. No run of the program gives
-- `diverge`: the theorems state fuel that is enough.
pub data Result {ℓ} (A : Type ℓ) : Type ℓ where
  ok : A → Result A
  raise : Error → Result A
  diverge : Result A

infixl 5 ◌>>=◌ ◌>>◌
abbrev pub ◌>>=◌ {ℓ κ} : {A : Type ℓ} {B : Type κ} → Result A → (A → Result B) → Result B
ok a >>= f = f a
raise e >>= f = raise e
diverge >>= f = diverge

abbrev pub ◌>>◌ {ℓ} : {B : Type ℓ} → Result (Unit {0}) → Result B → Result B
m >> k = m >>= λ _. k

-- `if b: raise e`
abbrev pub raise_if : Bool → Error → Result (Unit {0})
raise_if Bool.true e = raise e
raise_if Bool.false e = ok tt
