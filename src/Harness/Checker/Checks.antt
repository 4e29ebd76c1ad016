-- ===== src/Harness/Checker/Checks.antt =====
-- checker.h: what the single checks ask of a run.
use color.Prelude.{
  ℕ, zero, suc, ◌+◌, ◌≤◌, ◌<◌, ◌≡◌, refl, ap, ◌∙◌, Bool, true, false, not, List, [], ◌∷◌, arith,
  inl, inr, leb, leb→le, ◌==◌, ==→eq, Bool-cases, length, take, All, if◌then◌else◌,
}
use color.Text.{Bytes}
use color.Dict.{contains}
use color.Core.Message.{Seq}
use color.Core.History.{Event, event_eq}
use color.Harness.Checker.{
  CheckResult, require, compare_events, check_prefix, check_calls, check_answered,
}

-- `P`, unless the flag is set.
abbrev pub Unless : Bool → Type 0 → Type 0
Unless true P = Unit
Unless false P = P

-- `f` fails the run where `P` does not hold, and changes nothing where it does.
pub record Checks (f : CheckResult → CheckResult) (P : Type 0) : Type 0 where
  pub sound : (r : CheckResult) → (f r).ok ≡ true → (r.ok ≡ true) × P
  pub silent : (r : CheckResult) → P → f r ≡ r

pub both :
    {f g : CheckResult → CheckResult} {P Q : Type 0}
    → Checks f P
    → Checks g Q
    → Checks (λ r. g (f r)) (P × Q)
both {f} {g} v w = record {
  sound = λ r ok. (
    (v.sound r (w.sound (f r) ok).0).0,
    ((v.sound r (w.sound (f r) ok).0).1, (w.sound (f r) ok).1),
  );
  silent = λ r h. ap g (v.silent r h.0) ∙ w.silent r h.1;
}

means : {f : CheckResult → CheckResult} {P Q : Type 0} → Checks f P → (P → Q) → (Q → P) → Checks f Q
means v there back = record {
  sound = λ r ok. ((v.sound r ok).0, there (v.sound r ok).1);
  silent = λ r q. v.silent r (back q);
}

pub require-Checks : (cond : Bool) (msg : Bytes) → Checks (require cond msg) (cond ≡ true)
unfolding require
require-Checks true msg = record { sound = λ r ok. (ok, refl); silent = λ r h. refl }
require-Checks false msg = record { sound = λ r bad. absurd (cc); silent = λ r h. absurd (cc) }

pub eq-Checks : (a b : ℕ) (msg : Bytes) → Checks (require (a == b) msg) (a ≡ b)
eq-Checks a b msg = means (require-Checks (a == b) msg) (==→eq a b) (λ e. ground arith)

pub le-Checks : (a b : ℕ) (msg : Bytes) → Checks (require (leb a b) msg) (a ≤ b)
le-Checks a b msg = means (require-Checks (leb a b) msg) (leb→le a b) (λ e. ground arith)

pub unless-Checks :
    (had_failover : Bool) (f : CheckResult → CheckResult) {P : Type 0}
    → Checks f P
    → Checks (λ r. if not had_failover then f r else r) (Unless had_failover P)
unless-Checks true f v = record { sound = λ r ok. (ok, tt); silent = λ r h. refl }
unless-Checks false f v = v

same_event : (s c : Event) → event_eq s c ≡ true → s ≡ c
unfolding event_eq
same_event s c h = ground arith

event_eq_self : (s : Event) → event_eq s s ≡ true
unfolding event_eq
event_eq_self s = ground arith

pub calls-Checks :
    (calls : List (Seq × ℕ)) → Checks (check_calls calls) (All (λ call. call.1 ≡ 1) calls)
unfolding check_calls
calls-Checks [] = record { sound = λ r ok. (ok, tt); silent = λ r h. refl }
calls-Checks ((seq, n) ∷ calls) = both (eq-Checks n 1 _) (calls-Checks calls)

pub answered-Checks :
    (left : ℕ) (s : Seq) (received : List Seq)
    → Checks
        (check_answered left s received)
        ((k : Seq) → s ≤ k → k < s + left → contains k received ≡ true)
unfolding check_answered
answered-Checks zero s received = record {
  sound = λ r ok. (ok, λ k low high. absurd (omega arith));
  silent = λ r h. refl;
}
answered-Checks (suc left) s received =
    means (both (require-Checks (contains s received) _) (answered-Checks left (s + 1) received))
      (λ (here, later) k low high. elim (Bool-cases (s == k)) [
        | inl same ↦ rw (← ==→eq s k same) here
        | inr other ↦ later k (ground (arith, other)) (omega arith)
      ])
      (λ all. (all s (omega arith) (omega arith), λ k low high. all k (omega arith) (omega arith)))

-- The two histories are equal as far as both go.
abbrev SameSoFar : List Event → List Event → Type 0
SameSoFar [] ch = Unit
SameSoFar (s ∷ sh) [] = Unit
SameSoFar (s ∷ sh) (c ∷ ch) = (s ≡ c) × SameSoFar sh ch

SameSoFar-take :
    (sh ch : List Event) → length sh ≤ length ch → SameSoFar sh ch → sh ≡ take (length sh) ch
SameSoFar-take [] ch h v = refl
SameSoFar-take (s ∷ sh) [] h v = absurd (omega arith)
SameSoFar-take (s ∷ sh) (c ∷ ch) h v = ground (arith, v.0, SameSoFar-take sh ch (omega arith) v.1)

take-SameSoFar :
    (sh ch : List Event) → sh ≡ take (length sh) ch → (length sh ≤ length ch) × SameSoFar sh ch
take-SameSoFar [] ch h = (omega arith, tt)
take-SameSoFar (s ∷ sh) [] h = absurd (cc)
take-SameSoFar (s ∷ sh) (c ∷ ch) h =
    let (fits, same) = take-SameSoFar sh ch (cc) in (omega (arith, fits), (cc, same))

compare-Checks : (i : ℕ) (sh ch : List Event) → Checks (compare_events i sh ch) (SameSoFar sh ch)
unfolding compare_events require
compare-Checks i [] ch = record { sound = λ r ok. (ok, tt); silent = λ r h. refl }
compare-Checks i (s ∷ sh) [] = record { sound = λ r ok. (ok, tt); silent = λ r h. refl }
compare-Checks i (s ∷ sh) (c ∷ ch) = elim (Bool-cases (event_eq s c)) [
  | inl same ↦
      let later = compare-Checks (i + 1) sh ch in
      record {
        sound = λ r ok.
            let (before, rest) = later.sound r (rw (same, compare_events) at ok) in
            (before, (same_event s c same, rest));
        silent = λ r v. rw (same, compare_events) (later.silent r v.1);
      }
  | inr other ↦ record {
    sound = λ r bad.
        let e : ◌≡◌ {A = Bool} false true = rw (other, compare_events, require) at bad in
        absurd (cc);
    silent = λ r v. absurd (ground (arith, other, v.0, event_eq_self s));
  }
]

pub prefix-Checks : (sh ch : List Event) → Checks (check_prefix sh ch) (sh ≡ take (length sh) ch)
unfolding check_prefix
prefix-Checks sh ch =
    means (both (le-Checks (length sh) (length ch) _) (compare-Checks 0 sh ch))
      (λ (fits, same). SameSoFar-take sh ch fits same) (take-SameSoFar sh ch)
