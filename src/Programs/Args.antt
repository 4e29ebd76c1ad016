-- ===== src/Programs/Args.antt =====
-- The loop over the arguments that the three programs share: verification/src/fuzz_main.cpp, parse,
-- and the first loop of demo/src/color_client_main.cc and of demo/src/color_server_main.cc.
use color.Prelude.{
  ℕ, ◌≡◌, refl, ap, sym, ◌∙◌, Option, none, some, List, [], ◌∷◌, ◌++◌, Option-cases, inl, inr,
  arith,
}
use color.Text.{Bytes}
use color.Prelude.Ints.{ℤ}

-- How the standard library reads a number: `none` where it throws.
pub record Conversions (P : Type 0) : Type 0 where
  -- `std::stoi`
  pub stoi : Bytes → Option ℤ
  -- `std::stoull`
  pub stoull : Bytes → Option ℕ
  -- `std::stod`
  pub stod : Bytes → Option P
  -- `std::strtod(s, nullptr)`, and its result as `uint64_t`, which `size_t` is, and as an `int`
  pub strtod : Bytes → P
  pub to_u64 : P → ℕ
  pub to_int : P → ℤ
  -- the literals 0.30, 0.10, 2.0 and 0.0
  pub p30 : P
  pub p10 : P
  pub two : P
  pub zero_double : P

-- What an argument sets in a configuration: by itself, or with the argument behind it.
pub data Setting (C : Type 0) : Type 0 where
  flag : (C → C) → Setting C
  value : (Bytes → C → Option C) → Setting C

-- How the loop ends: with the configuration; at an argument that no test knows; at a number that
-- cannot be read, by an exception; or by reading `argv[argc]`, which is null, as a text.
pub data Parsed (C : Type 0) : Type 0 where
  parsed : C → Parsed C
  unknown : Bytes → Parsed C
  thrown : Parsed C
  missing : Parsed C

module _ {C : Type 0} (setting : Bytes → Option (Setting C)) where
  unfoldable pub parse_args : List Bytes → C → Parsed C
  parse_args [] c = parsed c
  parse_args (a ∷ []) c = elim (setting a) [
    | none ↦ unknown a
    | some s ↦ elim s [ flag set ↦ parsed (set c) | value set ↦ missing ]
  ]
  parse_args (a ∷ v ∷ args) c = elim (setting a) [
    | none ↦ unknown a
    | some s ↦ elim s [
      | flag set ↦ parse_args (v ∷ args) (set c)
      | value set ↦ elim (set v c) [ none ↦ thrown | some c' ↦ parse_args args c' ]
    ]
  ]

  -- The arguments are read one after the other: where the loop comes through some of them, it goes
  -- on with the rest in the configuration reached.
  parse_args-append :
      (args rest : List Bytes) (c : C) {c' : C}
      → parse_args args c ≡ parsed c'
      → parse_args (args ++ rest) c ≡ parse_args rest c'
  unfolding parse_args
  parse_args-append [] rest c h = ap (parse_args rest) (cc)
  parse_args-append (a ∷ []) [] c h = h
  parse_args-append (a ∷ []) (v ∷ rest) c {c'} h = elim (Option-cases (setting a)) [
    | inl e ↦ absurd (ground (arith, e))
    | inr (flag set, e) ↦
        let came : parsed (set c) ≡ parsed c' = sym (rw (e, parse_args) refl) ∙ h in
        rw (e, parse_args) (ap (parse_args (v ∷ rest)) (cc))
    | inr (value set, e) ↦ absurd (ground (arith, e))
  ]
  parse_args-append (a ∷ v ∷ args) rest c h = elim (Option-cases (setting a)) [
    | inl e ↦ absurd (ground (arith, e))
    | inr (flag set, e) ↦
        rw (e, parse_args) (parse_args-append (v ∷ args) rest (set c) (rw (e, parse_args) at h))
    | inr (value set, e) ↦ elim (Option-cases (set v c)) [
      | inl bad ↦ absurd (ground (arith, e, bad))
      | inr (c₁, good) ↦
          rw (e, parse_args)
            (rw good (parse_args-append args rest c₁ (rw good at (rw (e, parse_args) at h))))
    ]
  ]

  -- The first argument that no test knows ends the loop, whatever stands behind it.
  pub parse_args-unknown :
      (args : List Bytes) (a : Bytes) (rest : List Bytes) (c : C) {c' : C}
      → parse_args args c ≡ parsed c'
      → setting a ≡ none
      → parse_args (args ++ a ∷ rest) c ≡ unknown a
  unfolding parse_args
  parse_args-unknown args a rest c {c'} h e = parse_args-append args (a ∷ rest) c h ∙ stops rest
    where
      stops : (behind : List Bytes) → parse_args (a ∷ behind) c' ≡ unknown a
      stops [] = rw (e, parse_args)
      stops (v ∷ behind) = rw (e, parse_args)

-- How a program ends, or that it is still running.
pub data Exit : Type 0 where
  exited : ℕ → Exit
  aborted undefined running : Exit

-- `return 2` at an unknown argument, and what follows the loop.
unfoldable pub with_args : {C : Type 0} → Parsed C → (C → Exit) → Exit
with_args (parsed c) body = body c
with_args (unknown a) body = exited 2
with_args thrown body = aborted
with_args missing body = undefined

pub with_args-unknown :
    {C : Type 0} (setting : Bytes → Option (Setting C)) (body : C → Exit) (args : List Bytes)
    (a : Bytes) (rest : List Bytes) (c c' : C)
    → parse_args setting args c ≡ parsed c'
    → setting a ≡ none
    → with_args (parse_args setting (args ++ a ∷ rest) c) body ≡ exited 2
unfolding with_args
with_args-unknown setting body args a rest c c' read unheard =
    ap (λ r. with_args r body) (parse_args-unknown setting args a rest c read unheard)
