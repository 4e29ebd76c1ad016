-- ===== src/Core/Client/Base.antt =====
-- color_client.cc, `on_response`: the low-water mark, `while (received_.count(base_)) ++base_;`.
use color.Prelude.{
  ℕ, zero, suc, ◌+◌, ◌≤◌, ◌<◌, ◌≡◌, inl, inr, true, false, List, [], ◌∷◌, arith, length, u64_mod,
  inc64, inc64-eq, ◌==◌, leb, ==→eq, if◌then◌else◌, Bool-cases,
}
use color.Dict.{contains}
use color.Core.Message.{Seq}
use color.Core.Client.{advance_base}

-- How many received ids are not below `base`: the rounds that `advance_base` can still make.
count_from : Seq → List Seq → ℕ
count_from base [] = 0
count_from base (k ∷ s) = let rest = count_from base s in if leb base k then suc rest else rest

count_from-le : (base : Seq) (s : List Seq) → count_from base s ≤ length s
unfolding count_from
count_from-le base [] = omega arith
count_from-le base (k ∷ s) = ground (arith, count_from-le base s)

count_from_mono : (base : Seq) (s : List Seq) → count_from (base + 1) s ≤ count_from base s
unfolding count_from
count_from_mono base [] = omega arith
count_from_mono base (k ∷ s) = ground (arith, count_from_mono base s)

count_from-lt :
    (base : Seq) (s : List Seq)
    → contains base s ≡ true
    → count_from (base + 1) s < count_from base s
unfolding count_from contains
count_from-lt base [] h = cc
count_from-lt base (k ∷ s) h = ground (arith, count_from_mono base s, count_from-lt base s)

-- The loop stops at the least id from `base` on that has not been received: its fuel suffices, and
-- the base does not wrap around.
advance_base_lem :
    (fuel : ℕ) (received : List Seq) (base : Seq)
    → ((k : Seq) → contains k received ≡ true → k + 1 < u64_mod)
    → count_from base received < fuel
    → let b = advance_base fuel received base in
      (base ≤ b)
      × (contains b received ≡ false)
      × ((k : Seq) → base ≤ k → k < b → contains k received ≡ true)
unfolding advance_base
advance_base_lem zero received base short enough = absurd (omega arith)
advance_base_lem (suc fuel) received base short enough =
    elim (Bool-cases (contains base received)) [
      | inr stop ↦ rw (stop, advance_base) (omega arith, stop, λ k low high. absurd (omega arith))
      | inl more ↦
          let next = inc64-eq base (short base more) in
          let (above, stop, all) =
            advance_base_lem fuel received (inc64 base) short
              (rw next (omega (arith, count_from-lt base received more))) in
          rw (more, advance_base)
            (
              omega (arith, next),
              stop,
              λ k low high. elim (Bool-cases (base == k)) [
                | inl same ↦ rw (← ==→eq base k same) more
                | inr other ↦ all k (ground (arith, next)) high
              ],
            )
    ]

pub advance_base-received :
    (received : List Seq) (base : Seq)
    → ((k : Seq) → contains k received ≡ true → k + 1 < u64_mod)
    → let b = advance_base (suc (length received)) received base in
      (base ≤ b)
      × (contains b received ≡ false)
      × ((k : Seq) → base ≤ k → k < b → contains k received ≡ true)
advance_base-received received base short =
    advance_base_lem (suc (length received)) received base short
      (omega (arith, count_from-le base received))
