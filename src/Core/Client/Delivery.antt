-- ===== src/Core/Client/Delivery.antt =====
-- color_client.cc, `on_response`: what is passed on to the user through `deliver_`.
use color.Prelude.{
  ℕ, ◌≡◌, refl, ap, sym, ◌∙◌, inl, inr, true, false, not, ◌&&◌, List, [], ◌∷◌, ◌++◌, map, arith,
  subst, ◌==◌, Bool-cases, All, All-append, All-mono, ==_self,
}
use color.Dict.{contains, add}
use color.Dict.Laws.{contains-add}
use color.Text.{Bytes}
use color.Core.Message.{Seq, Response}
use color.Core.Client.{Client, on_response}

abbrev pub Distinct : List ℕ → Type 0
Distinct [] = Unit
Distinct (k ∷ ks) = (contains k ks ≡ false) × Distinct ks

-- The ids that were delivered, oldest first.
abbrev pub delivered_ids : Client → List Seq
delivered_ids c = map (λ (kp : Seq × Bytes). kp.0) c.delivered

pub record DeliversOnce (c : Client) : Type 0 where
  pub distinct : Distinct (delivered_ids c)
  pub known : All (λ k. contains k c.received ≡ true) (delivered_ids c)

contains-append :
    (k j : ℕ) (ks : List ℕ)
    → contains k ks ≡ false
    → (j == k) ≡ false
    → contains k (ks ++ j ∷ []) ≡ false
unfolding contains
contains-append k j [] h e = rw e refl
contains-append k j (i ∷ ks) h e = ground (arith, contains-append k j ks)

Distinct-append :
    (j : ℕ) (ks : List ℕ) → Distinct ks → contains j ks ≡ false → Distinct (ks ++ j ∷ [])
unfolding contains
Distinct-append j [] h new = (refl, tt)
Distinct-append j (k ∷ ks) h new = (
  contains-append k j ks h.0 (ground (arith, new)),
  Distinct-append j ks h.1 (ground (arith, new)),
)

unreceived :
    (j : ℕ) (ks received : List ℕ)
    → All (λ k. contains k received ≡ true) ks
    → contains j received ≡ false
    → contains j ks ≡ false
unfolding contains
unreceived j [] received h new = refl
unreceived j (k ∷ ks) received h new = elim (Bool-cases (k == j)) [
  | inl same ↦ absurd (ground (arith, same, h.0, new))
  | inr other ↦ rw other (unreceived j ks received h.1 new)
]

map-append :
    (xs : List (Seq × Bytes)) (k : Seq) (p : Bytes)
    → map (λ (kp : Seq × Bytes). kp.0) (xs ++ (k, p) ∷ [])
      ≡ map (λ (kp : Seq × Bytes). kp.0) xs ++ k ∷ []
map-append [] k p = refl
map-append (x ∷ xs) k p = ap (◌∷◌ x.0) (map-append xs k p)

received-add :
    (k j : ℕ) (received : List ℕ) → contains k received ≡ true → contains k (add j received) ≡ true
received-add k j received h = contains-add j k received ∙ ground (arith, h)

pub on_response-DeliversOnce :
    (c : Client) (resp : Response) → DeliversOnce c → DeliversOnce (on_response c resp).0
unfolding on_response
on_response-DeliversOnce c resp v = elim (Bool-cases (contains resp.seq c.received)) [
  | inl old ↦ rw (old, on_response) v
  | inr new ↦
      let known = All-mono (delivered_ids c) (λ k. received-add k resp.seq c.received) v.known in
      elim (Bool-cases (c.deliver && not resp.no_op)) [
        | inl tell ↦
            rw (new, tell, on_response)
              (record {
                distinct = subst Distinct (sym (map-append c.delivered resp.seq resp.payload)) (
                    Distinct-append resp.seq (delivered_ids c) v.distinct
                      (unreceived resp.seq (delivered_ids c) c.received v.known new));
                known =
                    subst (All (λ k. contains k (add resp.seq c.received) ≡ true))
                      (sym (map-append c.delivered resp.seq resp.payload))
                      (All-append (λ k. contains k (add resp.seq c.received) ≡ true)
                        (delivered_ids c) (resp.seq ∷ []) known
                        (contains-add resp.seq resp.seq c.received ∙ rw ==_self refl, tt));
              })
        | inr quiet ↦ rw (new, quiet, on_response) (record { distinct = v.distinct; known = known })
      ]
]
