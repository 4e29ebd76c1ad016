-- ===== src/Dict.antt =====
-- `std::unordered_map<Seq, V>` and `std::unordered_set<Seq>` as association lists and lists: the
-- containers of the client, the server and the interceptor. The source leaves their iteration order
-- open; here it is the order of the list.
use color.Prelude.{
  ℕ, suc, ◌<◌, ◌≤◌, ◌+◌, ◌≡◌, ◌≢◌, refl, Bool, true, false, ◌||◌, Option, none, some, List, [], ◌∷◌,
  arith, ltb, ◌==◌, if◌then◌else◌, length, All,
}
pub mod Laws
pub mod Counts

module _ {ℓ} {V : Type ℓ} where
  unfoldable pub lookup : ℕ → List (ℕ × V) → Option V
  lookup key [] = none
  lookup key ((seq, value) ∷ entries) =
      let behind = lookup key entries in if seq == key then some value else behind

  -- `m[key] = value`, in place of an older entry.
  unfoldable pub insert : ℕ → V → List (ℕ × V) → List (ℕ × V)
  insert key value [] = (key, value) ∷ []
  insert key value ((seq, old) ∷ entries) =
      if seq == key then (key, value) ∷ entries else (seq, old) ∷ insert key value entries

  -- `m.erase(k)`
  unfoldable pub erase : ℕ → List (ℕ × V) → List (ℕ × V)
  erase k [] = []
  erase k ((j, w) ∷ m) = let rest = erase k m in if j == k then rest else (j, w) ∷ rest

-- `s.count(k) != 0`, `s.insert(k)` and `s.erase(k)`
unfoldable pub contains : ℕ → List ℕ → Bool
contains k [] = false
contains k (j ∷ s) = j == k || contains k s

unfoldable pub add : ℕ → List ℕ → List ℕ
unfolding contains
add k s = if contains k s then s else k ∷ s

unfoldable pub remove : ℕ → List ℕ → List ℕ
remove k [] = []
remove k (j ∷ s) = let rest = remove k s in if j == k then rest else j ∷ rest
