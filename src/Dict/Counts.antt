-- ===== src/Dict/Counts.antt =====
-- How often a value stands in a map with distinct keys.
use color.Prelude.{
  ℕ, ◌+◌, ◌≡◌, refl, ap, sym, ◌∙◌, inl, inr, Bool, true, false, none, some, List, [], ◌∷◌, ◌++◌,
  ◌==◌, if◌then◌else◌, arith, Bool-cases, subst, ==→eq, ==_self, All,
}
use color.Dict.{lookup, insert, erase, contains}

-- `1` where the two are equal.
abbrev pub one_if : Bool → ℕ
one_if b = if b then 1 else 0

unfoldable pub count : ℕ → List ℕ → ℕ
count o [] = 0
count o (v ∷ vs) = one_if (v == o) + count o vs

abbrev pub keys : List (ℕ × ℕ) → List ℕ
keys [] = []
keys ((k, v) ∷ m) = k ∷ keys m

abbrev pub values : List (ℕ × ℕ) → List ℕ
values [] = []
values ((k, v) ∷ m) = v ∷ values m

abbrev pub IsMap : List (ℕ × ℕ) → Type 0
IsMap [] = Unit
IsMap ((k, v) ∷ m) = (contains k (keys m) ≡ false) × IsMap m

pub count-append : (o : ℕ) (vs ws : List ℕ) → count o (vs ++ ws) ≡ count o vs + count o ws
unfolding count
count-append o [] ws = omega arith
count-append o (v ∷ vs) ws = omega (arith, count-append o vs ws)

contains-keys-insert :
    (j k v : ℕ) (m : List (ℕ × ℕ))
    → contains j (keys m) ≡ false
    → (k == j) ≡ false
    → contains j (keys (insert k v m)) ≡ false
unfolding contains insert
contains-keys-insert j k v [] h e = rw e refl
contains-keys-insert j k v ((i, w) ∷ m) h e = ground (arith, contains-keys-insert j k v m)

contains-keys-erase :
    (j k : ℕ) (m : List (ℕ × ℕ))
    → contains j (keys m) ≡ false
    → contains j (keys (erase k m)) ≡ false
unfolding contains erase
contains-keys-erase j k [] h = refl
contains-keys-erase j k ((i, w) ∷ m) h = ground (arith, contains-keys-erase j k m)

pub insert-IsMap : (k v : ℕ) (m : List (ℕ × ℕ)) → IsMap m → IsMap (insert k v m)
unfolding insert contains
insert-IsMap k v [] h = (refl, tt)
insert-IsMap k v ((i, w) ∷ m) h = elim (Bool-cases (i == k)) [
  | inl same ↦ rw same (subst (λ j. contains j (keys m) ≡ false) (==→eq i k same) h.0, h.1)
  | inr other ↦
      rw other (contains-keys-insert i k v m h.0 (ground (arith, other)), insert-IsMap k v m h.1)
]

pub erase-IsMap : (k : ℕ) (m : List (ℕ × ℕ)) → IsMap m → IsMap (erase k m)
unfolding erase
erase-IsMap k [] h = tt
erase-IsMap k ((i, w) ∷ m) h = elim (Bool-cases (i == k)) [
  | inl same ↦ rw same (erase-IsMap k m h.1)
  | inr other ↦ rw other (contains-keys-erase i k m h.0, erase-IsMap k m h.1)
]

erase-absent : (k : ℕ) (m : List (ℕ × ℕ)) → contains k (keys m) ≡ false → erase k m ≡ m
unfolding erase contains
erase-absent k [] h = refl
erase-absent k ((i, w) ∷ m) h = elim (Bool-cases (i == k)) [
  | inl same ↦ absurd (ground (arith, same))
  | inr other ↦ rw other (ap (◌∷◌ (i, w)) (erase-absent k m (ground (arith, other))))
]

contains-keys-lookup :
    (k : ℕ) (m : List (ℕ × ℕ)) {v : ℕ} → lookup k m ≡ some v → contains k (keys m) ≡ true
unfolding lookup contains
contains-keys-lookup k [] h = absurd (cc)
contains-keys-lookup k ((i, w) ∷ m) {v} h = ground (arith, contains-keys-lookup k m {v = v})

-- A value that is erased is counted once less.
pub count-erase :
    (o k v : ℕ) (m : List (ℕ × ℕ))
    → IsMap m
    → lookup k m ≡ some v
    → count o (values (erase k m)) + one_if (v == o) ≡ count o (values m)
unfolding count lookup erase
count-erase o k v [] h e = absurd (cc)
count-erase o k v ((i, w) ∷ m) h e = elim (Bool-cases (i == k)) [
  | inl same ↦
      let gone : contains k (keys m) ≡ false =
        subst (λ j. contains j (keys m) ≡ false) (==→eq i k same) h.0 in
      let value : some w ≡ some v = sym (rw (same, lookup) refl) ∙ e in
      let v_is : w ≡ v = cc in
      rw same (rw (erase-absent k m gone) (omega (arith, ap (λ u. one_if (u == o)) v_is)))
  | inr other ↦ ground (arith, other, count-erase o k v m h.1)
]

-- A new value is counted once more.
pub count-insert_new :
    (o k v : ℕ) (m : List (ℕ × ℕ))
    → lookup k m ≡ none
    → count o (values (insert k v m)) ≡ count o (values m) + one_if (v == o)
unfolding count lookup insert
count-insert_new o k v [] e = omega arith
count-insert_new o k v ((i, w) ∷ m) e = ground (arith, count-insert_new o k v m)

-- A value that takes the place of another one.
pub count-insert_old :
    (o k v u : ℕ) (m : List (ℕ × ℕ))
    → lookup k m ≡ some u
    → count o (values (insert k v m)) + one_if (u == o) ≡ count o (values m) + one_if (v == o)
unfolding count lookup insert
count-insert_old o k v u [] e = absurd (cc)
count-insert_old o k v u ((i, w) ∷ m) e = ground (arith, count-insert_old o k v u m)

-- Every entry of a map with distinct keys is found.
pub All-values :
    (P : ℕ → Type 0) (m : List (ℕ × ℕ))
    → IsMap m
    → ((k v : ℕ) → lookup k m ≡ some v → P v)
    → All (λ kv. P kv.1) m
unfolding lookup contains
All-values P [] h f = tt
All-values P ((k, v) ∷ m) h f = (
  f k v (rw ==_self refl),
  All-values P m h.1 (λ j w e. f j w (elim (Bool-cases (k == j)) [
    | inl same ↦ absurd (ground (arith, contains-keys-lookup j m e, h.0, ==→eq k j same))
    | inr other ↦ rw other e
  ])),
)
