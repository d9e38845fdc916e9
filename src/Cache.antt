-- ===== src/Cache.antt =====
-- `TreeCache` of core/objects/query.py and `_BoundedCache` of core/services/refs.py: dicts in the
-- order of use that drop the entry that was used longest ago.
pub mod Correct
use reflake.Prelude.{
  Str, ℕ, List, [], ◌∷◌, ◌++◌, Option, none, some, Bool, true, false, length, ltb, list_eq, nat_eq,
}
use reflake.Prelude.Dict.{Dict, get, put, remove}
use reflake.Domain.{Result, ok, raise, diverge}

module _ {V : Type 0} where
  -- `OrderedDict.move_to_end(key)`, of a key that is there.
  unfoldable pub move_to_end : Dict Str V → Str → Dict Str V
  move_to_end entries key = elim (get entries key) [
    | none ↦ entries
    | some v ↦ remove entries key ++ (key, v) ∷ []
  ]

  -- `popitem(last=False)`
  unfoldable pub pop_first : Dict Str V → Dict Str V
  pop_first [] = []
  pop_first (_ ∷ entries) = entries

  -- `TreeCache._evict`
  unfoldable pub evict : ℕ → Dict Str V → Dict Str V
  evict maxsize [] = []
  evict maxsize (x ∷ entries) =
      let rest = evict maxsize entries in
      elim (ltb maxsize (length (x ∷ entries))) [ true ↦ rest | false ↦ x ∷ entries ]

  -- `TreeCache.put`
  unfoldable pub cache_put : ℕ → Dict Str V → Str → V → Dict Str V
  unfolding move_to_end evict
  cache_put maxsize entries key v = evict maxsize (move_to_end (put entries key v) key)

  -- `_BoundedCache.__setitem__`
  unfoldable pub set_item : ℕ → Dict Str V → Str → V → Dict Str V
  unfolding pop_first
  set_item maxsize entries key v =
      let stored = remove entries key ++ (key, v) ∷ [] in
      elim (ltb maxsize (length stored)) [ true ↦ pop_first stored | false ↦ stored ]

  -- `TreeWalker._load`: `fetch` reads and parses the node. The cache comes back too.
  unfoldable pub load_cached :
      (Str → Result (Option V)) → ℕ → Dict Str V → Str → Result (Option V) × Dict Str V
  unfolding move_to_end cache_put
  load_cached fetch maxsize entries key = elim (get entries key) [
    | some v ↦ (ok (some v), move_to_end entries key)
    | none ↦ elim (fetch key) [
      | ok none ↦ (ok none, entries)
      | ok (some v) ↦ (ok (some v), cache_put maxsize entries key v)
      | raise e ↦ (raise e, entries)
      | diverge ↦ (diverge, entries)
    ]
  ]

  -- `RefManager.read_commit`: `fetch` reads and decodes the commit, or raises.
  unfoldable pub read_cached : (Str → Result V) → ℕ → Dict Str V → Str → Result V × Dict Str V
  unfolding move_to_end set_item
  read_cached fetch maxsize entries key = elim (get entries key) [
    | some v ↦ (ok v, move_to_end entries key)
    | none ↦ elim (fetch key) [
      | ok v ↦ (ok v, set_item maxsize entries key v)
      | raise e ↦ (raise e, entries)
      | diverge ↦ (diverge, entries)
    ]
  ]

  -- Calls one after the other on one cache, with all their answers.
  unfoldable pub run :
      {R : Type 0}
      → (Dict Str V → Str → R × Dict Str V)
      → Dict Str V
      → List Str
      → List R × Dict Str V
  run call entries [] = ([], entries)
  run call entries (key ∷ keys) =
      let (answer, next) = call entries key in
      let (answers, last) = run call next keys in (answer ∷ answers, last)
