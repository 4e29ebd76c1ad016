-- ===== src/Harness/Link/Contents.antt =====
-- sim_network.h: what a link holds.
use color.Prelude.{ℕ, Bool, true, false, inl, inr, List, [], ◌∷◌, ltb, Bool-cases, inc64, All}
use color.Harness.Link.{Random, SimLink, emplace, pop, schedule, duplicate, offer, send}

-- What is queued after `send` was queued before or is the message sent; what `due` takes was queued.
module _ {M : Type 0} (K : M → Type 0) where
  pub All-emplace :
      (tick : ℕ) (m : M) (q : List (ℕ × M))
      → K m
      → All (λ e. K e.1) q
      → All (λ e. K e.1) (emplace tick m q)
  unfolding emplace
  All-emplace tick m [] k v = (k, tt)
  All-emplace tick m ((t, x) ∷ q) k v = elim (Bool-cases (ltb tick t)) [
    | inl front ↦ rw front (k, v)
    | inr back ↦ rw back (v.0, All-emplace tick m q k v.1)
  ]

  pub All-pop :
      (now : ℕ) (q : List (ℕ × M))
      → All (λ e. K e.1) q
      → All K (pop now q).0 × All (λ e. K e.1) (pop now q).1
  unfolding pop
  All-pop now [] v = (tt, tt)
  All-pop now ((t, x) ∷ q) v = elim (Bool-cases (ltb now t)) [
    | inl stop ↦ rw stop (tt, v)
    | inr go ↦ rw go (let (out, rest) = All-pop now q v.1 in ((v.0, out), rest))
  ]

  module _ {G P : Type 0} (rand : Random G P) (now : ℕ) (m : M) (k : K m) where
    All-duplicate :
        (again : Bool) (link : SimLink P M) (g : G)
        → All (λ e. K e.1) link.queue
        → All (λ e. K e.1) (duplicate rand now m again link g).0.queue
    unfolding duplicate schedule
    All-duplicate false link g v = v
    All-duplicate true link g v = All-emplace _ m link.queue k v

    All-offer :
        (drop : Bool) (link : SimLink P M) (g : G)
        → All (λ e. K e.1) link.queue
        → All (λ e. K e.1) (offer rand now m drop link g).0.queue
    unfolding offer schedule
    All-offer true link g v = v
    All-offer false link g v = All-duplicate _ _ _ (All-emplace _ m link.queue k v)

    pub All-send :
        (link : SimLink P M) (g : G)
        → All (λ e. K e.1) link.queue
        → All (λ e. K e.1) (send rand now m link g).0.queue
    unfolding send
    All-send link g v = All-offer _ (record link { sent = inc64 link.sent }) _ v
