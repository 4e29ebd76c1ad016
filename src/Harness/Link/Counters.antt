-- ===== src/Harness/Link/Counters.antt =====
-- sim_network.h: what the counters of a link say, and the order of its queue.
use color.Prelude.{
  ℕ, zero, suc, ◌+◌, ◌%◌, ◌≤◌, ◌≡◌, refl, Bool, true, false, List, [], ◌∷◌, arith, inl, inr, ltb,
  Bool-cases, u64_mod, inc64, length, All,
}
use color.Harness.Link.{
  Random, LinkConfig, SimLink, emplace, pop, inc64_by, new_link, schedule, duplicate, offer, send,
  due, set_config,
}

-- No entry is due before one that stands in front of it.
abbrev pub InTickOrder {ℓ} : {M : Type ℓ} → List (ℕ × M) → Type ℓ
InTickOrder [] = Unit
InTickOrder ((t, m) ∷ q) = All (λ e. t ≤ e.0) q × InTickOrder q

module _ {ℓ} {M : Type ℓ} where
  All-emplace :
      (low tick : ℕ) (m : M) (q : List (ℕ × M))
      → low ≤ tick
      → All (λ e. low ≤ e.0) q
      → All (λ e. low ≤ e.0) (emplace tick m q)
  unfolding emplace
  All-emplace low tick m [] h v = (h, tt)
  All-emplace low tick m ((t, x) ∷ q) h v = elim (Bool-cases (ltb tick t)) [
    | inl front ↦ rw front (h, v)
    | inr back ↦ rw back (v.0, All-emplace low tick m q h v.1)
  ]

  All-low :
      (low high : ℕ) (q : List (ℕ × M))
      → low ≤ high
      → All (λ e. high ≤ e.0) q
      → All (λ e. low ≤ e.0) q
  All-low low high [] h v = tt
  All-low low high ((t, x) ∷ q) h v = (omega (arith, v.0), All-low low high q h v.1)

  emplace-InTickOrder :
      (tick : ℕ) (m : M) (q : List (ℕ × M)) → InTickOrder q → InTickOrder (emplace tick m q)
  unfolding emplace
  emplace-InTickOrder tick m [] v = (tt, tt)
  emplace-InTickOrder tick m ((t, x) ∷ q) v = elim (Bool-cases (ltb tick t)) [
    | inl front ↦
        let first : tick ≤ t = ground (arith, front) in
        rw front ((first, All-low tick t q first v.0), v)
    | inr back ↦
        rw back
          (All-emplace t tick m q (ground (arith, back)) v.0, emplace-InTickOrder tick m q v.1)
  ]

  pop-InTickOrder : (now : ℕ) (q : List (ℕ × M)) → InTickOrder q → InTickOrder (pop now q).1
  unfolding pop
  pop-InTickOrder now [] v = tt
  pop-InTickOrder now ((t, x) ∷ q) v = elim (Bool-cases (ltb now t)) [
    | inl stop ↦ rw stop v
    | inr go ↦ rw go (pop-InTickOrder now q v.1)
  ]

  length-emplace : (tick : ℕ) (m : M) (q : List (ℕ × M)) → length (emplace tick m q) ≡ length q + 1
  unfolding emplace
  length-emplace tick m [] = omega arith
  length-emplace tick m ((t, x) ∷ q) = ground (arith, length-emplace tick m q)

  length-pop : (now : ℕ) (q : List (ℕ × M)) → length (pop now q).0 + length (pop now q).1 ≡ length q
  unfolding pop
  length-pop now [] = omega arith
  length-pop now ((t, x) ∷ q) = ground (arith, length-pop now q)

inc64_by_lem : (n k : ℕ) → inc64_by n k % u64_mod ≡ (n + k) % u64_mod
unfolding inc64_by inc64
inc64_by_lem n zero = omega arith
inc64_by_lem n (suc k) = omega (arith, inc64_by_lem (inc64 n) k)

-- The life of a link: whatever is sent, drawn, popped and configured.
pub data Uses {G P M : Type 0} (rand : Random G P) (cfg : LinkConfig P) : SimLink P M → Type 0 where
  fresh : Uses rand cfg (new_link cfg)
  sends :
      {link : SimLink P M} (now : ℕ) (m : M) (g : G)
      → Uses rand cfg link
      → Uses rand cfg (send rand now m link g).0
  pops : {link : SimLink P M} (now : ℕ) → Uses rand cfg link → Uses rand cfg (due now link).1
  sets :
      {link : SimLink P M} (new_cfg : LinkConfig P)
      → Uses rand cfg link
      → Uses rand cfg (set_config new_cfg link)

pub record IsBalanced {P M : Type 0} (link : SimLink P M) : Type 0 where
  pub balance :
      (link.delivered + length link.queue + link.dropped) % u64_mod
      ≡ (link.sent + link.duplicated) % u64_mod
  pub order : InTickOrder link.queue

module _ {G P M : Type 0} (rand : Random G P) where
  -- What `schedule` and the calls around it do: so many copies come into the queue.
  schedule-IsBalanced :
      (now : ℕ) (m : M) (link : SimLink P M) (g : G) (owed : ℕ)
      → (link.delivered + (length link.queue + suc owed) + link.dropped) % u64_mod
        ≡ (link.sent + link.duplicated) % u64_mod
      → InTickOrder link.queue
      → let link' = (schedule rand now m link g).0 in
        ((link'.delivered + (length link'.queue + owed) + link'.dropped) % u64_mod
          ≡ (link'.sent + link'.duplicated) % u64_mod)
        × InTickOrder link'.queue
  unfolding schedule
  schedule-IsBalanced now m link g owed e order =
      (omega (arith, length-emplace _ m link.queue), emplace-InTickOrder _ m link.queue order)

  duplicate-IsBalanced :
      (now : ℕ) (m : M) (again : Bool) (link : SimLink P M) (g : G)
      → IsBalanced link
      → IsBalanced (duplicate rand now m again link g).0
  unfolding duplicate inc64
  duplicate-IsBalanced now m false link g v = v
  duplicate-IsBalanced now m true link g v =
      let (e, order) =
        schedule-IsBalanced now m (record link { duplicated = inc64 link.duplicated }) g 0
          (omega (arith, v.balance)) v.order in
      record { balance = omega arith; order = order }

  offer-IsBalanced :
      (now : ℕ) (m : M) (drop : Bool) (link : SimLink P M) (g : G)
      → IsBalanced link
      → IsBalanced (offer rand now m drop (record link { sent = inc64 link.sent }) g).0
  unfolding offer inc64
  offer-IsBalanced now m true link g v = record {
    balance = omega (arith, v.balance);
    order = v.order;
  }
  offer-IsBalanced now m false link g v =
      let counted : SimLink P M = record link { sent = inc64 link.sent } in
      let (e, order) =
        schedule-IsBalanced now m counted g 0 (unfold inc64 in omega (arith, v.balance)) v.order in
      duplicate-IsBalanced now m _ (schedule rand now m counted g).0 _
        (record { balance = omega (arith, e); order = order })

  -- Whatever has been sent through a link, popped from it and configured: the messages delivered,
  -- queued and dropped are as many as those sent and the second copies together, modulo 2^64, and
  -- no queued message stands in front of one that is due earlier.
  pub Uses-IsBalanced :
      (cfg : LinkConfig P) {link : SimLink P M} → Uses rand cfg link → IsBalanced link
  unfolding new_link send due set_config
  Uses-IsBalanced cfg fresh = record { balance = refl; order = tt }
  Uses-IsBalanced cfg (sends {link} now m g u) =
      offer-IsBalanced now m _ link _ (Uses-IsBalanced cfg u)
  Uses-IsBalanced cfg (pops {link} now u) =
      let v = Uses-IsBalanced cfg u in
      record {
        balance = omega (
          arith,
          v.balance,
          length-pop now link.queue,
          inc64_by_lem link.delivered (length (pop now link.queue).0),
        );
        order = pop-InTickOrder now link.queue v.order;
      }
  Uses-IsBalanced cfg (sets new_cfg u) =
      let v = Uses-IsBalanced cfg u in record { balance = v.balance; order = v.order }
