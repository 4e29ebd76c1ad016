-- ===== src/Harness/Link/Due.antt =====
-- sim_network.h: when a message comes out of a link.
use color.Prelude.{
  ℕ, suc, ◌+◌, ◌-◌, ◌≤◌, ◌<◌, ◌≡◌, refl, ap, ◌∙◌, some, get_elem?, ◌⊎◌, inl, inr, true, false, List,
  subst, sym, [], ◌∷◌, arith, ltb, leb, if◌then◌else◌, Bool-cases, u64_mod, add64, add64-eq, inc64,
  Bool, All,
}
use color.Harness.Link.{
  Random, LinkConfig, SimLink, emplace, pop, extra, schedule, duplicate, offer, send, due,
}
use color.Harness.Link.Counters.{InTickOrder, Uses, sends, Uses-IsBalanced}

module _ {ℓ} {M : Type ℓ} where
  -- The messages that are due by `now`, and the entries that are not.
  unfoldable pub ripe : ℕ → List (ℕ × M) → List M
  ripe now [] = []
  ripe now ((t, m) ∷ q) = if leb t now then m ∷ ripe now q else ripe now q

  unfoldable pub unripe : ℕ → List (ℕ × M) → List (ℕ × M)
  unripe now [] = []
  unripe now ((t, m) ∷ q) = if leb t now then unripe now q else (t, m) ∷ unripe now q

  late :
      (now t : ℕ) (q : List (ℕ × M))
      → now < t
      → All (λ e. t ≤ e.0) q
      → (ripe now q ≡ []) × (unripe now q ≡ q)
  unfolding ripe unripe
  late now t [] h v = (refl, refl)
  late now t ((s, m) ∷ q) h v =
      let e : leb s now ≡ false = ground (arith, v.0) in
      let (none_due, all_stay) = late now t q h v.1 in rw e (none_due, ap (◌∷◌ (s, m)) all_stay)

  pop_lem :
      (now : ℕ) (q : List (ℕ × M))
      → InTickOrder q
      → ((pop now q).0 ≡ ripe now q) × ((pop now q).1 ≡ unripe now q)
  unfolding pop ripe unripe
  pop_lem now [] v = (refl, refl)
  pop_lem now ((t, m) ∷ q) v = elim (Bool-cases (ltb now t)) [
    | inl stop ↦
        let (none_due, all_stay) = late now t q (ground (arith, stop)) v.0 in
        let e : leb t now ≡ false = ground (arith, stop) in
        rw (stop, e) (ground (arith, none_due), ground (arith, all_stay))
    | inr go ↦
        let (due_now, stays) = pop_lem now q v.1 in
        let e : leb t now ≡ true = ground (arith, go) in rw (go, e) (ap (◌∷◌ m) due_now, stays)
  ]

-- Whatever a link has gone through, `due` takes out exactly the messages whose tick has come, in the
-- order of the queue, and leaves exactly the others, although it stops at the first that is not due.
pub due-partition :
    {G P M : Type 0} (rand : Random G P) (cfg : LinkConfig P) {link : SimLink P M}
    → Uses rand cfg link
    → (now : ℕ)
    → ((due now link).0 ≡ ripe now link.queue) × ((due now link).1.queue ≡ unripe now link.queue)
unfolding due
due-partition rand cfg {link} u now = pop_lem now link.queue (Uses-IsBalanced rand cfg u).order

module _ {M : Type 0} where
  -- `m` stands somewhere in `ms`.
  abbrev pub Holds : M → List M → Type 0
  Holds m ms = (i : ℕ) × (get_elem? ms i ≡ some m)

  behind : (x m : M) (ms : List M) → Holds m ms → Holds m (x ∷ ms)
  behind x m ms (i, e) = (suc i, e)

  ripe-emplace_early :
      (now tick : ℕ) (m : M) (q : List (ℕ × M))
      → now < tick
      → ripe now (emplace tick m q) ≡ ripe now q
  unfolding ripe emplace
  ripe-emplace_early now tick m [] h = ground arith
  ripe-emplace_early now tick m ((t, x) ∷ q) h = ground (arith, ripe-emplace_early now tick m q)

  ripe-emplace :
      (now tick : ℕ) (m : M) (q : List (ℕ × M)) → tick ≤ now → Holds m (ripe now (emplace tick m q))
  unfolding ripe emplace
  ripe-emplace now tick m [] h = let e : leb tick now ≡ true = ground arith in (0, rw e refl)
  ripe-emplace now tick m ((t, x) ∷ q) h = elim (Bool-cases (ltb tick t)) [
    | inl front ↦ let e : leb tick now ≡ true = ground arith in (0, rw (front, ripe) (rw e refl))
    | inr back ↦
        let e : leb t now ≡ true = ground (arith, back) in
        rw (back, ripe) (rw e (behind x m _ (ripe-emplace now tick m q h)))
  ]

module _ {G P : Type 0} (rand : Random G P) where
  extra-le : (cfg : LinkConfig P) (g : G) → (extra rand cfg g).0 ≤ cfg.max_latency - cfg.min_latency
  unfolding extra
  extra-le cfg g = ground arith

-- The first tick at which a copy sent at `now` may come out, and the last.
abbrev pub first_tick : {P : Type 0} → ℕ → LinkConfig P → ℕ
first_tick now cfg = now + cfg.min_latency

abbrev pub last_tick : {P : Type 0} → ℕ → LinkConfig P → ℕ
last_tick now cfg = now + cfg.min_latency + (cfg.max_latency - cfg.min_latency)

-- What a call of `schedule` or `send` does to the queue: `m` is due by `last`, and nothing else
-- changes before `first`.
pub record Adds {M : Type 0} (m : M) (first last : ℕ) (old new : List (ℕ × M)) : Type 0 where
  pub arrives : Holds m (ripe last new)
  pub waits : (t : ℕ) → t < first → ripe t new ≡ ripe t old

module _ {G P M : Type 0} (rand : Random G P) (now : ℕ) (m : M) where
  schedule-Adds :
      (link : SimLink P M) (g : G)
      → last_tick now link.cfg < u64_mod
      → Adds m
          (first_tick now link.cfg)
          (last_tick now link.cfg)
          link.queue
          (schedule rand now m link g).0.queue
  unfolding schedule
  schedule-Adds link g room =
      let small = extra-le rand link.cfg g in
      let start = add64-eq now link.cfg.min_latency (omega arith) in
      let e : add64 (add64 now link.cfg.min_latency) (extra rand link.cfg g).0
          ≡ now + link.cfg.min_latency + (extra rand link.cfg g).0 =
        ap (λ k. add64 k (extra rand link.cfg g).0) start ∙ add64-eq _ _ (omega arith) in
      record {
        arrives = ripe-emplace _ _ m link.queue (omega (arith, e));
        waits = λ t early. ripe-emplace_early t _ m link.queue (omega (arith, e));
      }

  duplicate-Adds :
      (again : Bool) (link : SimLink P M) (g : G) (old : List (ℕ × M))
      → last_tick now link.cfg < u64_mod
      → Adds m (first_tick now link.cfg) (last_tick now link.cfg) old link.queue
      → Adds m
          (first_tick now link.cfg)
          (last_tick now link.cfg)
          old
          (duplicate rand now m again link g).0.queue
  unfolding duplicate
  duplicate-Adds false link g old room v = v
  duplicate-Adds true link g old room v =
      let w = schedule-Adds (record link { duplicated = inc64 link.duplicated }) g room in
      record { arrives = w.arrives; waits = λ t early. w.waits t early ∙ v.waits t early }

  duplicate-dropped :
      (again : Bool) (link : SimLink P M) (g : G)
      → (duplicate rand now m again link g).0.dropped ≡ link.dropped
  unfolding duplicate schedule
  duplicate-dropped true link g = refl
  duplicate-dropped false link g = refl

  -- What `send` does to a link, with the draw for the loss: it is dropped and counted, or it is added.
  offer-Adds :
      (drop : Bool) (link : SimLink P M) (g : G)
      → last_tick now link.cfg < u64_mod
      → let link' = (offer rand now m drop link g).0 in
        ((drop ≡ true) × (link'.queue ≡ link.queue) × (link'.dropped ≡ inc64 link.dropped))
        ⊎ ((drop ≡ false)
            × (link'.dropped ≡ link.dropped)
            × Adds m (first_tick now link.cfg) (last_tick now link.cfg) link.queue link'.queue)
  unfolding offer schedule
  offer-Adds true link g room = inl (refl, refl, refl)
  offer-Adds false link g room = inr (
    refl,
    duplicate-dropped _ _ _,
    duplicate-Adds _ _ _ link.queue room (schedule-Adds link g room),
  )

  -- Whatever a link has gone through, let a message be sent through it at a tick `now` such that the
  -- tick at which it may come out last, `now` and the largest latency, is below 2^64. If the draw says
  -- so, it is dropped: counted as such, and the queue stays as it was. Otherwise nothing is counted as
  -- dropped, a copy of it is among what `due` takes out at that last tick, and before `now` and the
  -- smallest latency `due` takes out what it would have taken out without the message.
  pub send-window :
      (cfg : LinkConfig P) (link : SimLink P M) (g : G)
      → Uses rand cfg link
      → last_tick now link.cfg < u64_mod
      → let link' = (send rand now m link g).0 in
        let drop = (rand.chance link.cfg.p_drop g).0 in
        ((drop ≡ true) × (link'.queue ≡ link.queue) × (link'.dropped ≡ inc64 link.dropped))
        ⊎ ((drop ≡ false)
            × (link'.dropped ≡ link.dropped)
            × Holds m (due (last_tick now link.cfg) link').0
            × ((t : ℕ) → t < first_tick now link.cfg → (due t link').0 ≡ (due t link).0))
  unfolding send
  send-window cfg link g u room =
      let link' = (send rand now m link g).0 in
      let after : Uses rand cfg link' = sends now m g u in
      let out = (λ (t : ℕ). (due-partition rand cfg after t).0) in
      elim (offer-Adds (rand.chance link.cfg.p_drop g).0 (record link { sent = inc64 link.sent })
        (rand.chance link.cfg.p_drop g).1 room) [
          | inl dropped ↦ inl dropped
          | inr (kept, quiet, adds) ↦ inr (
            kept,
            quiet,
            subst (Holds m) (sym (out (last_tick now link.cfg))) adds.arrives,
            λ t early. out t ∙ adds.waits t early ∙ sym (due-partition rand cfg u t).0,
          )
        ]
