-- ===== src/Cache/Correct.antt =====
-- A cache changes no answer and stays within its size.
use reflake.Prelude.{
  Str, ℕ, ◌≤◌, ◌<◌, List, [], ◌∷◌, ◌++◌, map, Option, none, some, Bool, true, false, ◌≡◌, refl, sym,
  ap, subst, ◌∙◌, All, Bool-cases, Option-cases, inl, inr, length, length-append, ltb, ◌==◌, ==_iff,
  if◌then◌else◌, list_eq, nat_eq, arith,
}
use reflake.Prelude.Dict.{Dict, get, put, remove}
use reflake.Domain.{Result, ok, raise, diverge}
use reflake.Cache.{
  move_to_end, pop_first, evict, cache_put, set_item, load_cached, read_cached, run,
}

module _ {V : Type 0} (P : Str → V → Type 0) where
  -- What holds of every entry.
  abbrev pub AllEntries : Dict Str V → Type 0
  AllEntries d = All (λ (k, v). P k v) d

  remove-AllEntries : (d : Dict Str V) (k : Str) → AllEntries d → AllEntries (remove d k)
  unfolding remove
  remove-AllEntries [] k h = tt
  remove-AllEntries ((j, w) ∷ d) k (h, hs) = elim (Bool-cases (k == j)) [
    | inl y ↦ rw y (remove-AllEntries d k hs)
    | inr y ↦ rw y (h, remove-AllEntries d k hs)
  ]

  append-AllEntries :
      (d : Dict Str V) (k : Str) (v : V) → AllEntries d → P k v → AllEntries (d ++ (k, v) ∷ [])
  append-AllEntries [] k v h p = (p, tt)
  append-AllEntries (x ∷ d) k v (h, hs) p = (h, append-AllEntries d k v hs p)

  put-AllEntries :
      (d : Dict Str V) (k : Str) (v : V) → AllEntries d → P k v → AllEntries (put d k v)
  unfolding put
  put-AllEntries [] k v h p = (p, tt)
  put-AllEntries ((j, w) ∷ d) k v (h, hs) p = elim (Bool-cases (k == j)) [
    | inl y ↦ rw y (p, hs)
    | inr y ↦ rw y (h, put-AllEntries d k v hs p)
  ]

  pub get-AllEntries :
      (d : Dict Str V) → AllEntries d → (k : Str) (v : V) → get d k ≡ some v → P k v
  unfolding get
  get-AllEntries [] a k v q = absurd (cc q)
  get-AllEntries ((j, w) ∷ d) (p, ps) k v q = elim (Bool-cases (k == j)) [
    | inl y ↦
        let found : some w ≡ some v = sym (ap (λ b. if b then some w else get d k) y) ∙ q in
        let same : w ≡ v = cc found in
        subst (P k) same (subst (λ i. P i w) (sym ((==_iff k j).0 y)) p)
    | inr y ↦ get-AllEntries d ps k v (sym (ap (λ b. if b then some w else get d k) y) ∙ q)
  ]

  move_to_end-AllEntries : (d : Dict Str V) (k : Str) → AllEntries d → AllEntries (move_to_end d k)
  unfolding move_to_end
  move_to_end-AllEntries d k h = go (get d k) refl
    where
      go :
          (o : Option V)
          → get d k ≡ o
          → AllEntries (elim o [ none ↦ d | some v ↦ remove d k ++ (k, v) ∷ [] ])
      go none q = h
      go (some v) q =
          append-AllEntries (remove d k) k v (remove-AllEntries d k h) (get-AllEntries d h k v q)

  evict-AllEntries : (n : ℕ) (d : Dict Str V) → AllEntries d → AllEntries (evict n d)
  unfolding evict
  evict-AllEntries n [] h = tt
  evict-AllEntries n (x ∷ d) (h, hs) = go (ltb n (length (x ∷ d))) (evict-AllEntries n d hs)
    where
      go :
          (b : Bool)
          → AllEntries (evict n d)
          → AllEntries (elim b [ true ↦ evict n d | false ↦ x ∷ d ])
      go true rest = rest
      go false rest = (h, hs)

  cache_put-AllEntries :
      (n : ℕ) (d : Dict Str V) (k : Str) (v : V)
      → AllEntries d
      → P k v
      → AllEntries (cache_put n d k v)
  unfolding cache_put
  cache_put-AllEntries n d k v h p =
      evict-AllEntries n (move_to_end (put d k v) k)
        (move_to_end-AllEntries (put d k v) k (put-AllEntries d k v h p))

  pop_first-AllEntries : (d : Dict Str V) → AllEntries d → AllEntries (pop_first d)
  unfolding pop_first
  pop_first-AllEntries [] h = tt
  pop_first-AllEntries (x ∷ d) (h, hs) = hs

  set_item-AllEntries :
      (n : ℕ) (d : Dict Str V) (k : Str) (v : V)
      → AllEntries d
      → P k v
      → AllEntries (set_item n d k v)
  unfolding set_item
  set_item-AllEntries n d k v h p = go (ltb n (length (remove d k ++ (k, v) ∷ [])))
    where
      stored : AllEntries (remove d k ++ (k, v) ∷ [])
      stored = append-AllEntries (remove d k) k v (remove-AllEntries d k h) p

      go :
          (b : Bool)
          → AllEntries (elim b [
            | true ↦ pop_first (remove d k ++ (k, v) ∷ [])
            | false ↦ remove d k ++ (k, v) ∷ []
          ])
      go true = pop_first-AllEntries (remove d k ++ (k, v) ∷ []) stored
      go false = stored

length-remove : {V : Type 0} (d : Dict Str V) (k : Str) → length (remove d k) ≤ length d
unfolding remove
length-remove [] k = omega arith
length-remove ((j, w) ∷ d) k = elim (Bool-cases (k == j)) [
  | inl y ↦ rw y (omega (arith, length-remove d k))
  | inr y ↦ rw y (omega (arith, length-remove d k))
]

module _ {V : Type 0} where
  length-remove_found :
      (d : Dict Str V) (k : Str) (v : V) → get d k ≡ some v → length (remove d k) < length d
  unfolding remove get
  length-remove_found [] k v q = absurd (cc q)
  length-remove_found ((j, w) ∷ d) k v q = elim (Bool-cases (k == j)) [
    | inl y ↦ rw y (omega (arith, length-remove d k))
    | inr y ↦
        let shorter =
          length-remove_found d k v (sym (ap (λ b. if b then some w else get d k) y) ∙ q) in
        rw y (omega arith)
  ]

  length-move_to_end : (d : Dict Str V) (k : Str) → length (move_to_end d k) ≤ length d
  unfolding move_to_end
  length-move_to_end d k = go (get d k) refl
    where
      go :
          (o : Option V)
          → get d k ≡ o
          → length (elim o [ none ↦ d | some v ↦ remove d k ++ (k, v) ∷ [] ]) ≤ length d
      go none q = omega arith
      go (some v) q =
          omega (arith, length-append (remove d k) ((k, v) ∷ []), length-remove_found d k v q)

  length-evict : (n : ℕ) (d : Dict Str V) → length (evict n d) ≤ n
  unfolding evict
  length-evict n [] = omega arith
  length-evict n (x ∷ d) = elim (Bool-cases (ltb n (length (x ∷ d)))) [
    | inl y ↦ rw (y, evict) (length-evict n d)
    | inr y ↦ rw (y, evict) (ground arith)
  ]

  length-cache_put : (n : ℕ) (d : Dict Str V) (k : Str) (v : V) → length (cache_put n d k v) ≤ n
  unfolding cache_put
  length-cache_put n d k v = length-evict n (move_to_end (put d k v) k)

  length-pop_first : (d : Dict Str V) (x : Str × V) → length (pop_first (d ++ x ∷ [])) ≤ length d
  unfolding pop_first
  length-pop_first [] x = omega arith
  length-pop_first (y ∷ d) x = omega (arith, length-append d (x ∷ []))

  length-set_item :
      (n : ℕ) (d : Dict Str V) (k : Str) (v : V) → length d ≤ n → length (set_item n d k v) ≤ n
  unfolding set_item
  length-set_item n d k v h = elim (Bool-cases (ltb n (length (remove d k ++ (k, v) ∷ [])))) [
    | inl y ↦
        rw (y, set_item) (omega (arith, length-pop_first (remove d k) (k, v), length-remove d k))
    | inr y ↦ rw (y, set_item) (ground arith)
  ]

  module _ (n : ℕ) where
    -- A cache of what `fetch` answers, within its size.
    abbrev pub IsCache : (Str → V → Type 0) → Dict Str V → Type 0
    IsCache P d = AllEntries P d × (length d ≤ n)

    module _ (fetch : Str → Result (Option V)) where
      abbrev pub IsFetched : Str → V → Type 0
      IsFetched k v = fetch k ≡ ok (some v)

      abbrev IsRight : Str → Result (Option V) × Dict Str V → Type 0
      IsRight k out = (out.0 ≡ fetch k) × IsCache IsFetched out.1

      load-found :
          (d : Dict Str V) (k : Str) (v : V)
          → get d k ≡ some v
          → load_cached fetch n d k ≡ (ok (some v), move_to_end d k)
      unfolding load_cached
      load-found d k v q = rw (q, load_cached) refl

      load-missing :
          (d : Dict Str V) (k : Str) (r : Result (Option V))
          → get d k ≡ none
          → fetch k ≡ r
          → load_cached fetch n d k ≡ elim r [
            | ok none ↦ (ok none, d)
            | ok (some v) ↦ (ok (some v), cache_put n d k v)
            | raise e ↦ (raise e, d)
            | diverge ↦ (diverge, d)
          ]
      unfolding load_cached
      load-missing d k r q e = rw (q, e, load_cached) refl

      load_cached-IsRight :
          (d : Dict Str V) (k : Str) → IsCache IsFetched d → IsRight k (load_cached fetch n d k)
      load_cached-IsRight d k (h, short) = elim (Option-cases (get d k)) [
        | inr (v, q) ↦ subst (IsRight k) (sym (load-found d k v q)) (
          sym (get-AllEntries IsFetched d h k v q),
          (move_to_end-AllEntries IsFetched d k h, omega (arith, length-move_to_end d k)),
        )
        | inl q ↦
            subst (IsRight k) (sym (load-missing d k (fetch k) q refl)) (missing (fetch k) refl)
      ]
        where
          missing :
              (r : Result (Option V))
              → fetch k ≡ r
              → IsRight k (elim r [
                | ok none ↦ (ok none, d)
                | ok (some v) ↦ (ok (some v), cache_put n d k v)
                | raise e ↦ (raise e, d)
                | diverge ↦ (diverge, d)
              ])
          missing (ok none) e = (sym e, (h, short))
          missing (ok (some v)) e =
              (sym e, (cache_put-AllEntries IsFetched n d k v h e, length-cache_put n d k v))
          missing (raise x) e = (sym e, (h, short))
          missing diverge e = (sym e, (h, short))

      -- From a cache of at most `maxsize` nodes, each as it is fetched, any loads one after the other give the answers
      -- that they give without a cache, and leave such a cache.
      pub load_cached-run :
          (d : Dict Str V) (ks : List Str)
          → IsCache IsFetched d
          → ((run (load_cached fetch n) d ks).0 ≡ map fetch ks)
            × IsCache IsFetched (run (load_cached fetch n) d ks).1
      unfolding run
      load_cached-run d [] c = (refl, c)
      load_cached-run d (k ∷ ks) c =
          let (same, next) = load_cached-IsRight d k c in
          let (rest, last) = load_cached-run (load_cached fetch n d k).1 ks next in
          (cc (same, rest), last)

    module _ (fetch : Str → Result V) where
      abbrev pub IsRead : Str → V → Type 0
      IsRead k v = fetch k ≡ ok v

      abbrev IsAnswer : Str → Result V × Dict Str V → Type 0
      IsAnswer k out = (out.0 ≡ fetch k) × IsCache IsRead out.1

      read-found :
          (d : Dict Str V) (k : Str) (v : V)
          → get d k ≡ some v
          → read_cached fetch n d k ≡ (ok v, move_to_end d k)
      unfolding read_cached
      read-found d k v q = rw (q, read_cached) refl

      read-missing :
          (d : Dict Str V) (k : Str) (r : Result V)
          → get d k ≡ none
          → fetch k ≡ r
          → read_cached fetch n d k ≡ elim r [
            | ok v ↦ (ok v, set_item n d k v)
            | raise e ↦ (raise e, d)
            | diverge ↦ (diverge, d)
          ]
      unfolding read_cached
      read-missing d k r q e = rw (q, e, read_cached) refl

      read_cached-IsAnswer :
          (d : Dict Str V) (k : Str) → IsCache IsRead d → IsAnswer k (read_cached fetch n d k)
      read_cached-IsAnswer d k (h, short) = elim (Option-cases (get d k)) [
        | inr (v, q) ↦ subst (IsAnswer k) (sym (read-found d k v q)) (
          sym (get-AllEntries IsRead d h k v q),
          (move_to_end-AllEntries IsRead d k h, omega (arith, length-move_to_end d k)),
        )
        | inl q ↦
            subst (IsAnswer k) (sym (read-missing d k (fetch k) q refl)) (missing (fetch k) refl)
      ]
        where
          missing :
              (r : Result V)
              → fetch k ≡ r
              → IsAnswer k (elim r [
                | ok v ↦ (ok v, set_item n d k v)
                | raise e ↦ (raise e, d)
                | diverge ↦ (diverge, d)
              ])
          missing (ok v) e =
              (sym e, (set_item-AllEntries IsRead n d k v h e, length-set_item n d k v short))
          missing (raise x) e = (sym e, (h, short))
          missing diverge e = (sym e, (h, short))

      -- From a cache of at most `maxsize` commits, each as it is read, any reads one after the other give the answers
      -- that they give without a cache, and leave such a cache.
      pub read_cached-run :
          (d : Dict Str V) (ks : List Str)
          → IsCache IsRead d
          → ((run (read_cached fetch n) d ks).0 ≡ map fetch ks)
            × IsCache IsRead (run (read_cached fetch n) d ks).1
      unfolding run
      read_cached-run d [] c = (refl, c)
      read_cached-run d (k ∷ ks) c =
          let (same, next) = read_cached-IsAnswer d k c in
          let (rest, last) = read_cached-run (read_cached fetch n d k).1 ks next in
          (cc (same, rest), last)
