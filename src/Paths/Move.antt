-- ===== src/Paths/Move.antt =====
-- Matching a logical path, and moving the paths that match.
use reflake.Prelude.{
  Str, ℕ, [], ◌∷◌, ◌++◌, ◌≡◌, refl, ap, ◌↔◌, ◌⊎◌, inl, inr, true, false, Bool-cases, ◌==◌, ==_iff,
  ==_refl, list_eq, nat_eq, length, length-append, drop, starts_with, slash, lit, arith,
}
use reflake.Paths.{matches_logical_path, move_logical_path}

-- `str.startswith`: the text is the prefix and a rest.
pub starts_with_lem :
    (text prefix : Str)
    → (starts_with text prefix ≡ true) ↔ ((rest : Str) × (text ≡ prefix ++ rest))
unfolding starts_with
starts_with_lem text [] = ((λ e. (text, refl)), λ h. refl)
starts_with_lem [] (c ∷ prefix) = ((λ e. cc), λ (r, h). cc)
starts_with_lem (d ∷ text) (c ∷ prefix) = step (starts_with_lem text prefix)
  where
    both :
        ((c == d) ≡ true) × (starts_with text prefix ≡ true)
        → (starts_with (d ∷ text) (c ∷ prefix)) ≡ true
    both (e, h) = rw (e, h) refl

    parts :
        (starts_with (d ∷ text) (c ∷ prefix)) ≡ true
        → ((c == d) ≡ true) × (starts_with text prefix ≡ true)
    parts e = ground arith

    to :
        (starts_with text prefix ≡ true) ↔ ((rest : Str) × (text ≡ prefix ++ rest))
        → (starts_with (d ∷ text) (c ∷ prefix)) ≡ true
        → (rest : Str) × ((d ∷ text) ≡ (c ∷ prefix) ++ rest)
    to ih e =
        let (same, h) = parts e in
        let (rest, q) = ih.0 h in let q' = (==_iff c d).0 same in (rest, cc)

    from :
        (starts_with text prefix ≡ true) ↔ ((rest : Str) × (text ≡ prefix ++ rest))
        → ((rest : Str) × ((d ∷ text) ≡ (c ∷ prefix) ++ rest))
        → (starts_with (d ∷ text) (c ∷ prefix)) ≡ true
    from ih (rest, q) = both ((==_iff c d).1 cc, ih.1 (rest, cc))

    step :
        (starts_with text prefix ≡ true) ↔ ((rest : Str) × (text ≡ prefix ++ rest))
        → (starts_with (d ∷ text) (c ∷ prefix) ≡ true)
          ↔ ((rest : Str) × ((d ∷ text) ≡ (c ∷ prefix) ++ rest))
    step ih = (to ih, from ih)

drop-append : (xs ys : Str) → drop (length xs) (xs ++ ys) ≡ ys
drop-append [] ys = refl
drop-append (x ∷ xs) ys = drop-append xs ys

-- The path is the other, or lies below it.
abbrev pub IsUnder : Str → Str → Type 0
IsUnder path top = (path ≡ top) ⊎ ((rest : Str) × (path ≡ (top ++ lit "/") ++ rest))

-- A path matches exactly if it is the logical path or lies below it, at a component's boundary.
pub matches_logical_path_lem :
    (path top : Str) → (matches_logical_path path top ≡ true) ↔ IsUnder path top
unfolding matches_logical_path
matches_logical_path_lem path top =
    ground (arith, ==_iff path top, starts_with_lem path (top ++ lit "/"))

append_assoc : (xs ys zs : Str) → (xs ++ ys) ++ zs ≡ xs ++ (ys ++ zs)
append_assoc [] ys zs = refl
append_assoc (x ∷ xs) ys zs = ap (λ l. x ∷ l) (append_assoc xs ys zs)

longer : (xs rest : Str) (c : ℕ) → (xs ++ (c ∷ rest) == xs) ≡ false
longer xs rest c = elim (Bool-cases ((xs ++ (c ∷ rest)) == xs)) [
  | inl e ↦ absurd (omega (arith, length-append xs (c ∷ rest), ap length ((==_iff _ xs).0 e)))
  | inr e ↦ e
]

move-below :
    (source destination rest : Str)
    → move_logical_path ((source ++ lit "/") ++ rest) source destination
      ≡ (destination ++ lit "/") ++ rest
unfolding move_logical_path
move-below source destination rest =
    rw (append_assoc source (lit "/") rest, append_assoc destination (lit "/") rest)
      (rw (longer source rest slash)
        (ap (λ l. destination ++ l) (drop-append source (slash ∷ rest))))

move_self : (source destination : Str) → move_logical_path source source destination ≡ destination
unfolding move_logical_path
move_self source destination = rw (==_refl source) refl

-- A path that matches the source matches the destination after the move, and the move back gives
-- the path again; so no two moved paths collide.
pub move_logical_path_lem :
    (path source destination : Str)
    → matches_logical_path path source ≡ true
    → let moved = move_logical_path path source destination in
      (matches_logical_path moved destination ≡ true)
      × (move_logical_path moved destination source ≡ path)
move_logical_path_lem path source destination h = go ((matches_logical_path_lem path source).0 h)
  where
    go :
        IsUnder path source
        → (matches_logical_path (move_logical_path path source destination) destination ≡ true)
          × (move_logical_path (move_logical_path path source destination) destination source
              ≡ path)
    go (inl e) =
        rw (e, move_self source destination)
          (
            (matches_logical_path_lem destination destination).1 (inl refl),
            move_self destination source,
          )
    go (inr (rest, e)) =
        rw (e, move-below source destination rest)
          (
            (matches_logical_path_lem _ destination).1 (inr (rest, refl)),
            move-below destination source rest,
          )
