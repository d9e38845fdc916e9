-- ===== src/Samples/Logs.antt =====
-- The theorem on the log, at the sample's history.
use reflake.Prelude.{
  Str, List, [], ◌∷◌, In, Option, none, some, ◌≡◌, refl, ap, ◌↔◌, inl, inr, list_eq, nat_eq, arith,
}
use reflake.Prelude.Dict.{Dict, get}
use reflake.Domain.{CommitObject, Result, ok, raise, unknown_commit}
use reflake.Cache.Correct.{get-AllEntries}
use reflake.Walk.{Reach}
use reflake.Walk.Correct.{IsClosed}
use reflake.Repository.Log.{Keyed, log_from}
use reflake.Repository.Log.Correct.{parents_of, IsLog, keyed_ids, log_from_lem}
use reflake.Samples.{a_id, b_id, c_id, m_id, a_commit, b_commit, c_commit, m_commit, nodes, gen}

abbrev table : Dict Str CommitObject
table = (a_id, a_commit) ∷ (b_id, b_commit) ∷ (c_id, c_commit) ∷ (m_id, m_commit) ∷ []

abbrev read_table : Str → Result CommitObject
read_table x = elim (get table x) [ none ↦ raise (unknown_commit x) | some c ↦ ok c ]

read_table-found : (x : Str) (c : CommitObject) → read_table x ≡ ok c → get table x ≡ some c
read_table-found x c e = go (get table x) e
  where
    go :
        (o : Option CommitObject)
        → elim o [ none ↦ raise (unknown_commit x) | some c ↦ ok c ] ≡ ok c
        → o ≡ some c
    go none e = absurd (cc e)
    go (some d) e = ap some (cc e)

named : (x : Str) (c : CommitObject) → read_table x ≡ ok c → c.id ≡ x
named x c e =
    get-AllEntries (λ k v. v.id ≡ k) table (refl, (refl, (refl, (refl, tt)))) x c
      (read_table-found x c e)

closed : IsClosed (parents_of read_table) nodes
unfolding get list_eq nat_eq
closed x (inl e) = ([], ap (parents_of read_table) e, λ y m. absurd m)
closed x (inr (inl e)) =
    (a_id ∷ [], ap (parents_of read_table) e, λ y m. elim m [ inl q ↦ inl q | inr n ↦ absurd n ])
closed x (inr (inr (inl e))) =
    (a_id ∷ [], ap (parents_of read_table) e, λ y m. elim m [ inl q ↦ inl q | inr n ↦ absurd n ])
closed x (inr (inr (inr (inl e)))) = (
  b_id ∷ c_id ∷ [],
  ap (parents_of read_table) e,
  λ y m. elim m [ inl q ↦ inr (inl q) | inr (inl q) ↦ inr (inr (inl q)) | inr (inr n) ↦ absurd n ],
)
closed x (inr (inr (inr (inr n)))) = absurd n

log_from_lem_example :
    (ks : List Keyed) × (log_from read_table (λ x. ok (gen x)) 10 m_id ≡ ok ks)
    × ((x : Str) → In x (keyed_ids ks) ↔ Reach (parents_of read_table) (m_id ∷ []) x)
    × ((k : Keyed) → In k ks → k.0 ≡ gen k.1.id)
    × IsLog ks
unfolding get list_eq nat_eq
log_from_lem_example =
    log_from_lem gen read_table nodes (λ x. ok (gen x)) 10 m_id named closed (λ x m. refl)
      (inr (inr (inr (inl refl)))) (omega arith)
