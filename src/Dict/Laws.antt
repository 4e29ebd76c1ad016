-- ===== src/Dict/Laws.antt =====
-- What the containers promise: each read after each write, in `if` form, and the sizes.
use color.Prelude.{
  sym, ◌∙◌, ==→eq, ◌⊎◌, ℕ, ◌<◌, ◌≤◌, ◌+◌, ◌≡◌, ◌≢◌, refl, true, false, none, some, List, [], ◌∷◌,
  arith, ◌==◌, Bool-cases, inl, inr, if◌then◌else◌, length,
}
use color.Dict.{lookup, insert, erase, contains, add, remove}

module _ {ℓ} {V : Type ℓ} where
  pub lookup-insert :
      (key other : ℕ) (value : V) (entries : List (ℕ × V))
      → lookup other (insert key value entries)
        ≡ (if key == other then some value else lookup other entries)
  unfolding lookup insert
  lookup-insert key other value [] = refl
  lookup-insert key other value ((seq, old) ∷ entries) =
      ground (arith, lookup-insert key other value entries)

  pub lookup-erase :
      (k j : ℕ) (m : List (ℕ × V)) → lookup j (erase k m) ≡ (if k == j then none else lookup j m)
  unfolding lookup erase
  lookup-erase k j [] = ground arith
  lookup-erase k j ((i, w) ∷ m) = ground (arith, lookup-erase k j m)

  pub length-erase-le : (k : ℕ) (m : List (ℕ × V)) → length (erase k m) ≤ length m
  unfolding erase
  length-erase-le k [] = omega arith
  length-erase-le k ((i, w) ∷ m) = ground (arith, length-erase-le k m)

  pub length-erase-lt :
      (k : ℕ) (m : List (ℕ × V)) {v : V} → lookup k m ≡ some v → length (erase k m) < length m
  unfolding lookup erase
  length-erase-lt k [] h = cc
  length-erase-lt k ((i, w) ∷ m) {v} h =
      ground (arith, length-erase-le k m, length-erase-lt k m {v = v})

  pub length-insert-le : (k : ℕ) (v : V) (m : List (ℕ × V)) → length (insert k v m) ≤ length m + 1
  unfolding insert
  length-insert-le k v [] = omega arith
  length-insert-le k v ((i, w) ∷ m) = ground (arith, length-insert-le k v m)

module _ {ℓ} {V : Type ℓ} where
  pub length-insert_new :
      (k : ℕ) (v : V) (m : List (ℕ × V)) → lookup k m ≡ none → length (insert k v m) ≡ length m + 1
  unfolding insert lookup
  length-insert_new k v [] h = omega arith
  length-insert_new k v ((i, w) ∷ m) h = ground (arith, length-insert_new k v m)

pub contains-add :
    (k j : ℕ) (s : List ℕ) → contains j (add k s) ≡ (if k == j then true else contains j s)
unfolding contains add
contains-add k j s = elim (Bool-cases (contains k s)) [
  | inl old ↦ rw old (ground (arith, old))
  | inr new ↦ rw new (ground arith)
]

pub contains-remove :
    (k j : ℕ) (s : List ℕ) → contains j (remove k s) ≡ (if k == j then false else contains j s)
unfolding contains remove
contains-remove k j [] = ground arith
contains-remove k j (i ∷ s) = ground (arith, contains-remove k j s)

-- The same laws read backwards, for what is found after a write.
module _ {ℓ} {V : Type ℓ} where
  pub found-erase :
      (k j : ℕ) (m : List (ℕ × V)) {v : V}
      → lookup j (erase k m) ≡ some v
      → (k ≢ j) × (lookup j m ≡ some v)
  found-erase k j m h = ground (arith, lookup-erase k j m)

  pub found-insert :
      (k j : ℕ) (w : V) (m : List (ℕ × V)) {v : V}
      → lookup j (insert k w m) ≡ some v
      → ((k ≡ j) × (w ≡ v)) ⊎ ((k ≢ j) × (lookup j m ≡ some v))
  found-insert k j w m {v} h = elim (Bool-cases (k == j)) [
    | inl same ↦
        let e : some w ≡ some v = sym (rw same at (lookup-insert k j w m)) ∙ h in
        inl (==→eq k j same, cc)
    | inr other ↦ inr (λ e. ground (arith, e, other), sym (rw other at (lookup-insert k j w m)) ∙ h)
  ]

  pub kept-insert :
      (k j : ℕ) (w : V) (m : List (ℕ × V)) {v : V}
      → lookup j m ≡ some v
      → (u : V) × (lookup j (insert k w m) ≡ some u)
  kept-insert k j w m {v} h = elim (Bool-cases (k == j)) [
    | inl same ↦ (w, rw same at (lookup-insert k j w m))
    | inr other ↦ (v, rw other at (lookup-insert k j w m) ∙ h)
  ]

  pub lookup-insert_self : (k : ℕ) (v : V) (m : List (ℕ × V)) → lookup k (insert k v m) ≡ some v
  lookup-insert_self k v m = ground (arith, lookup-insert k k v m)

  pub inserted :
      (k j : ℕ) (w : V) (m : List (ℕ × V)) → k ≡ j → (u : V) × (lookup j (insert k w m) ≡ some u)
  inserted k j w m same = (w, rw (← same) (lookup-insert_self k w m))

pub contained-add :
    (k j : ℕ) (s : List ℕ) → contains j (add k s) ≡ true → (k ≡ j) ⊎ (contains j s ≡ true)
contained-add k j s h = ground (arith, contains-add k j s)

pub contained-remove :
    (k j : ℕ) (s : List ℕ) → contains j (remove k s) ≡ true → (k ≢ j) × (contains j s ≡ true)
contained-remove k j s h = ground (arith, contains-remove k j s)
