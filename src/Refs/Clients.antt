-- ===== src/Refs/Clients.antt =====
-- Clients that move branches of one shared store by fast-forwards, in any order.
use reflake.Prelude.{
  ℕ, ◌+◌, ◌<◌, In, length, Str, String, List, [], Option, none, some, true, Bool-cases, ◌≡◌, ◌≢◌,
  refl, sym, ap, subst, ◌∙◌, inl, inr, ◌==◌, ==_iff, ==_refl, if◌then◌else◌, list_eq, nat_eq,
  option_eq,
}
use reflake.Prelude.Dict.{get}
use reflake.Domain.{ok}
use reflake.Graph.Generation.{IsHistory, Ancestor, here}
use reflake.Graph.Ancestor.Correct.{Ancestor-trans}
use reflake.Refs.Store.{Store, Client, World, truthy, read_branch_ref, commit_id_of}
use reflake.Refs.Manager.{read_commit, read_some, fast_forward_from}
use reflake.Refs.Cas.{head_of, truthy-truthy}
use reflake.Refs.FastForward.{Keeps, fast_forward_from_lem}

abbrev in_world : Store → Client → World
in_world s client = record { store = s; client = client }

module _ (nodes : List Str) (depth fuel : ℕ) where
  -- One client's attempt, with what it takes for the branch's commit, which may be out of date.
  pub data Step (s : Store) : Store → Type 0 where
    attempt :
        (client : Client) (branch target : Str) (current : Option Str) (operation : String)
        → ((c : Str) → truthy current ≡ some c → In c nodes)
        → In target nodes
        → truthy (some target) ≡ some target
        → Step s
            (fast_forward_from depth fuel branch target operation current
              (in_world s client)).1.store

  -- Attempts of any clients one after the other.
  pub data Steps (s : Store) : Store → Type 0 where
    done : Steps s s
    next : {t u : Store} → Steps s t → Step t u → Steps s u

read_some-commits : (s t : Store) → t.commits ≡ s.commits → read_some t ≡ read_some s
unfolding read_commit
read_some-commits s t q = ap (λ cs. read_some (record { heads = []; commits = cs })) q

truthy-head_of : (s : Store) (b : Str) → truthy (head_of s b) ≡ head_of s b
unfolding read_branch_ref commit_id_of truthy
truthy-head_of s b = go (get s.heads b)
  where
    go :
        (o : Option (Option Str))
        → truthy (
            commit_id_of (elim o [
              | none ↦ none
              | some id ↦ some (record { branch = b; commit_id = truthy id })
            ]))
          ≡ commit_id_of (elim o [
            | none ↦ none
            | some id ↦ some (record { branch = b; commit_id = truthy id })
          ])
    go none = truthy-truthy none
    go (some id) = truthy-truthy id

-- The branch still has the commit: what it points to is a descendant.
abbrev pub Retains : Store → Str → Str → Type 0
Retains s b c = (d : Str) × (head_of s b ≡ some d) × Ancestor (read_some s) c d

module _ (nodes : List Str) (gen : Str → ℕ) (depth fuel : ℕ)
    (deep : (y : Str) → In y nodes → gen y < depth) (enough : length nodes + 1 < fuel) where
  Step-Retains :
      (s t : Store) (b c : Str)
      → IsHistory (read_some s) nodes gen
      → Step nodes depth fuel s t
      → head_of s b ≡ some c
      → (t.commits ≡ s.commits) × Retains t b c
  Step-Retains s _ b c history (attempt client branch target current operation known mt full) h =
      let w = in_world s client in
      let out = fast_forward_from depth fuel branch target operation current w in
      elim (fast_forward_from_lem w nodes gen history depth fuel deep enough branch target current
        operation known mt) [
          | inr (same, _) ↦ (ap (λ u. u.commits) same, (c, ap (λ u. head_of u b) same ∙ h, here))
          | inl (_, at, keeps, heads, commits) ↦ (commits, moved out.1.store at keeps heads commits)
        ]
    where
      moved :
          (t : Store)
          → head_of s branch ≡ current
          → Keeps (in_world s client) (truthy current) target
          → ((j : Str) → head_of t j ≡ (if j == branch then truthy (some target) else head_of s j))
          → t.commits ≡ s.commits
          → Retains t b c
      moved t at keeps heads commits = elim (Bool-cases (b == branch)) [
        | inr other ↦
            (c, heads b ∙ ap (λ e. if e then truthy (some target) else head_of s b) other ∙ h, here)
        | inl same ↦
            let now : truthy current ≡ some c =
              ap truthy (sym at)
              ∙ truthy-head_of s branch
              ∙ ap (head_of s) (sym ((==_iff b branch).0 same))
              ∙ h in
            (
              target,
              heads b ∙ ap (λ e. if e then truthy (some target) else head_of s b) same ∙ full,
              subst (λ r. Ancestor r c target) (sym (read_some-commits s t commits))
                  (subst (λ o. Keeps (in_world s client) o target) now keeps),
            )
      ]

  -- In a history, with enough fuel, whatever attempts to fast-forward branches any clients make in any order, a
  -- branch that has a commit keeps it: it then points to a descendant, and the commit objects are
  -- what they were.
  pub Steps-Retains :
      (s t : Store) (b c : Str)
      → IsHistory (read_some s) nodes gen
      → Steps nodes depth fuel s t
      → head_of s b ≡ some c
      → (t.commits ≡ s.commits) × Retains t b c
  Steps-Retains s _ b c history done h = (refl, (c, h, here))
  Steps-Retains s _ b c history (next {t} {u} steps step) h =
      let (commits, (d, at, from)) = Steps-Retains s t b c history steps h in
      let same = read_some-commits s t commits in
      let history' = subst (λ r. IsHistory r nodes gen) (sym same) history in
      let (commits', (e, at', from')) = Step-Retains t u b d history' step at in
      let same' = read_some-commits t u commits' in
      (
        commits' ∙ commits,
        (e, at', Ancestor-trans (read_some u) (subst (λ r. Ancestor r c d) (sym same') from) from'),
      )

  -- In a history, with enough fuel, an attempt that knows the branch's commit succeeds if the target is another
  -- commit that keeps it: the branch then points to the target.
  pub attempt-advances :
      (w : World) (branch target : Str) (operation : String)
      → IsHistory (read_some w.store) nodes gen
      → ((c : Str) → truthy (head_of w.store branch) ≡ some c → In c nodes)
      → In target nodes
      → truthy (some target) ≡ some target
      → head_of w.store branch ≢ some target
      → Keeps w (truthy (head_of w.store branch)) target
      → let (r, w') =
          fast_forward_from depth fuel branch target operation (head_of w.store branch) w in
        (r ≡ ok true) × (head_of w'.store branch ≡ some target)
  attempt-advances w branch target operation history known mt full new keeps =
      elim (fast_forward_from_lem w nodes gen history depth fuel deep enough branch target
        (head_of w.store branch) operation known mt) [
          | inl (r, _, _, heads, _) ↦ (
            r,
            heads branch
                ∙ ap (λ e. if e then truthy (some target) else head_of w.store branch)
                    (==_refl branch)
                ∙ full,
          )
          | inr (_, inl (_, same)) ↦ absurd (new same)
          | inr (_, inr (inl (_, lost))) ↦ absurd (lost keeps)
          | inr (_, inr (inr (_, other))) ↦ absurd (other refl)
        ]
