-- ===== src/Graph/Generation.antt =====
-- `_GenerationProvider` of core/repository_support.py, and what a well-formed history is.
-- `read` is the argument `read_commit`: it may raise, and `none` is an unknown commit.
pub mod Correct
use Prim.Native.Nat.{max}
use reflake.Prelude.{
  Str, ℕ, zero, suc, ◌+◌, ◌<◌, List, [], ◌∷◌, map, In, Option, none, some, ◌≡◌, list_eq, nat_eq,
}
use reflake.Prelude.Dict.{Dict, get, put}
use reflake.Domain.{CommitObject, Result, ok, diverge, ◌>>=◌}

abbrev pub Memo : Type 0
Memo = Dict Str ℕ

-- `max(...)`; the 0 of the empty list is never read.
unfoldable pub maximum : List ℕ → ℕ
maximum [] = 0
maximum (n ∷ ns) = max n (maximum ns)

-- `1 + max(parent_generations) if parent_generations else 0`
unfoldable pub derived_generation : List ℕ → ℕ
unfolding maximum
derived_generation [] = 0
derived_generation (g ∷ gs) = 1 + maximum (g ∷ gs)

-- `[self.of(parent) for parent in parents]`, with the memo threaded through.
unfoldable pub of_all : (Str → Memo → Result (ℕ × Memo)) → List Str → Memo → Result (List ℕ × Memo)
of_all f [] memo = ok ([], memo)
of_all f (p ∷ ps) memo =
    f p memo >>= λ (g, memo'). of_all f ps memo' >>= λ (gs, memo''). ok (g ∷ gs, memo'')

module _ (read : Str → Result (Option CommitObject)) where
  -- `_GenerationProvider.of`, with the memo before and after. The fuel is the depth of the
  -- recursion.
  unfoldable pub of : ℕ → Str → Memo → Result (ℕ × Memo)
  unfolding of_all
  of zero id memo = diverge
  of (suc depth) id memo = elim (get memo id) [
    | some g ↦ ok (g, memo)
    | none ↦ read id >>= elim [
      | none ↦ ok (0, put memo id 0)
      | some commit ↦ elim commit.generation [
        | some g ↦ ok (g, put memo id g)
        | none ↦ of_all (of depth) commit.parents memo >>= λ (gs, memo').
            ok (derived_generation gs, put memo' id (derived_generation gs))
      ]
    ]
  ]

  -- A history: a set of commit ids that is closed under parents, all of which `read` answers, and
  -- the generation of each. A stored generation is larger than those of the parents.
  pub record IsHistory (nodes : List Str) (gen : Str → ℕ) : Type 0 where
    pub known : (x : Str) → In x nodes → (o : Option CommitObject) × (read x ≡ ok o)
    pub closed :
        (x p : Str) (c : CommitObject)
        → In x nodes
        → read x ≡ ok (some c)
        → In p c.parents
        → In p nodes
    pub missing : (x : Str) → In x nodes → read x ≡ ok none → gen x ≡ 0
    pub stored :
        (x : Str) (c : CommitObject) (g : ℕ)
        → In x nodes
        → read x ≡ ok (some c)
        → c.generation ≡ some g
        → gen x ≡ g
    pub derived :
        (x : Str) (c : CommitObject)
        → In x nodes
        → read x ≡ ok (some c)
        → c.generation ≡ none
        → gen x ≡ derived_generation (map gen c.parents)
    pub grows :
        (x p : Str) (c : CommitObject)
        → In x nodes
        → read x ≡ ok (some c)
        → In p c.parents
        → gen p < gen x

  -- `a` is reachable from `d` over parent edges.
  pub data Ancestor (a : Str) : Str → Type 0 where
    here : Ancestor a a
    up :
        {d p : Str} {c : CommitObject}
        → read d ≡ ok (some c)
        → In p c.parents
        → Ancestor a p
        → Ancestor a d
