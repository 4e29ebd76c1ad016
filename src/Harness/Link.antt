-- ===== src/Harness/Link.antt =====
-- verification/src/sim_network.h: a link that drops, duplicates, delays and reorders. The standard
-- library's generator is a parameter, and so is its type of probabilities (`double`).
use color.Prelude.{
  ℕ, zero, suc, ◌+◌, ◌-◌, ◌%◌, Bool, true, false, List, [], ◌∷◌, ltb, if◌then◌else◌, inc64, add64,
  length,
}
pub mod Counters
pub mod Due
pub mod Contents

-- `std::mt19937_64` with the distributions that the harness draws from; `G` is the generator's state.
pub record Random (G P : Type 0) : Type 0 where
  -- `std::mt19937_64 rng(seed)`
  pub seeded : ℕ → G
  -- `uniform_real_distribution<double>(0.0, 1.0)(rng) < p`
  pub chance : P → G → Bool × G
  -- `rng()`
  pub word : G → ℕ × G
  -- `poisson_distribution<int>(rate)(rng)`, which is not negative
  pub arrivals : P → G → ℕ × G

-- Latencies are `int`; the harness sets `min_latency` to 1, and for `schedule` a `max_latency` below
-- it, negative ones included, has the effect of an equal one.
pub record LinkConfig (P : Type 0) : Type 0 where
  pub p_drop : P
  pub p_dup : P
  pub min_latency : ℕ
  pub max_latency : ℕ

-- The `std::multimap` is its entries in order.
pub record SimLink (P M : Type 0) : Type 0 where
  pub cfg : LinkConfig P
  pub queue : List (ℕ × M)
  pub sent : ℕ
  pub dropped : ℕ
  pub duplicated : ℕ
  pub delivered : ℕ

-- `queue_.emplace(at, m)`: behind the entries with the same key.
unfoldable pub emplace {ℓ} : {M : Type ℓ} → ℕ → M → List (ℕ × M) → List (ℕ × M)
emplace tick m [] = (tick, m) ∷ []
emplace tick m ((t, x) ∷ q) =
    if ltb tick t then (tick, m) ∷ (t, x) ∷ q else (t, x) ∷ emplace tick m q

-- The loop of `due`: the messages popped, and what stays.
unfoldable pub pop {ℓ} : {M : Type ℓ} → ℕ → List (ℕ × M) → List M × List (ℕ × M)
pop now [] = ([], [])
pop now ((t, m) ∷ q) =
    let later = pop now q in if ltb now t then ([], (t, m) ∷ q) else (m ∷ later.0, later.1)

-- `delivered_` after that loop.
unfoldable pub inc64_by : ℕ → ℕ → ℕ
inc64_by n zero = n
inc64_by n (suc k) = inc64_by (inc64 n) k

module _ {P M : Type 0} where
  unfoldable pub new_link : LinkConfig P → SimLink P M
  new_link cfg = record {
    cfg = cfg;
    queue = [];
    sent = 0;
    dropped = 0;
    duplicated = 0;
    delivered = 0;
  }

  -- `SimLink::due`
  unfoldable pub due : ℕ → SimLink P M → List M × SimLink P M
  unfolding pop inc64_by
  due now link =
      let (out, queue) = pop now link.queue in
      (out, record link { queue = queue; delivered = inc64_by link.delivered (length out) })

  -- `SimLink::empty` and `SimLink::set_config`
  unfoldable pub is_empty : SimLink P M → Bool
  is_empty link = elim link.queue [ [] ↦ true | _ ∷ _ ↦ false ]

  unfoldable pub set_config : LinkConfig P → SimLink P M → SimLink P M
  set_config cfg link = record link { cfg = cfg }

-- The draw of `SimLink::schedule`: none where the latencies leave no choice.
unfoldable pub extra : {G P : Type 0} → Random G P → LinkConfig P → G → ℕ × G
extra rand cfg g =
    let span = cfg.max_latency - cfg.min_latency in
    let (w, g') = rand.word g in if ltb 0 span then (w % (span + 1), g') else (0, g)

module _ {G P M : Type 0} where
  -- `SimLink::schedule`
  unfoldable pub schedule : Random G P → ℕ → M → SimLink P M → G → SimLink P M × G
  schedule rand now m link g =
      let (late, g') = extra rand link.cfg g in
      (
        record link { queue = emplace (add64 (add64 now link.cfg.min_latency) late) m link.queue },
        g',
      )

  -- `SimLink::send`, from its two draws on.
  unfoldable pub duplicate : Random G P → ℕ → M → Bool → SimLink P M → G → SimLink P M × G
  unfolding schedule
  duplicate rand now m true link g =
      schedule rand now m (record link { duplicated = inc64 link.duplicated }) g
  duplicate rand now m false link g = (link, g)

  unfoldable pub offer : Random G P → ℕ → M → Bool → SimLink P M → G → SimLink P M × G
  unfolding duplicate
  offer rand now m true link g = (record link { dropped = inc64 link.dropped }, g)
  offer rand now m false link g =
      let (link₁, g₁) = schedule rand now m link g in
      let (again, g₂) = rand.chance link₁.cfg.p_dup g₁ in duplicate rand now m again link₁ g₂

  unfoldable pub send : Random G P → ℕ → M → SimLink P M → G → SimLink P M × G
  unfolding offer
  send rand now m link g =
      let (drop, g') = rand.chance link.cfg.p_drop g in
      offer rand now m drop (record link { sent = inc64 link.sent }) g'
