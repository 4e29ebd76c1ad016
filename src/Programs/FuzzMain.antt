-- ===== src/Programs/FuzzMain.antt =====
-- verification/src/fuzz_main.cpp: parse and main. What is printed is left out. With `--minutes` the
-- clock says how many seeds are run; that number is an argument.
use color.Prelude.{
  ℕ, zero, suc, ◌+◌, ◌≤◌, ◌<◌, ◌≡◌, ◌↔◌, refl, ap, sym, ◌∙◌, true, false, Option, none, some, List,
  ltb, ◌==◌, ==→eq, if◌then◌else◌, inc64, inc64-eq, add64, add64-eq, subst, u64_mod, arith,
  Bool-cases, inl, inr,
}
use color.Prelude.Ints.{pos}
use color.Text.{Bytes, codes, bytes_eq}
use color.Harness.Link.{Random}
use color.Harness.Driver.{Config}
use color.Harness.Phases.{RunStats, run_one}
use color.Programs.Args.{Conversions, Setting, flag, value, parse_args, Exit, exited, with_args}

module _ {P : Type 0} (conv : Conversions P) where
  -- The member initialisers of `Config`.
  unfoldable pub default_config : Config P
  default_config = record {
    seeds = 100;
    base_seed = 1;
    gen_steps = 2000;
    parallel = 8;
    rate = conv.two;
    drop = conv.p30;
    dup = conv.p10;
    max_latency = pos 5;
    rto = 6;
    minutes = conv.zero_double;
    verbose = false;
    failovers = 0;
    ckpt_interval = 40;
  }

  -- `c.field = (std::uint64_t)val(i)`
  unfoldable pub u64_value : (ℕ → Config P → Config P) → Setting (Config P)
  u64_value set = value (λ s c. some (set (conv.to_u64 (conv.strtod s)) c))

  unfoldable pub double_value : (P → Config P → Config P) → Setting (Config P)
  double_value set = value (λ s c. some (set (conv.strtod s) c))

  -- The tests of the loop of `parse`.
  unfoldable pub fuzz_setting : Bytes → Option (Setting (Config P))
  unfolding u64_value double_value
  fuzz_setting a =
      if bytes_eq a (codes "--seeds")
      then some (u64_value (λ n c. record c { seeds = n }))
      else if bytes_eq a (codes "--base-seed")
      then some (u64_value (λ n c. record c { base_seed = n }))
      else if bytes_eq a (codes "--steps")
      then some (u64_value (λ n c. record c { gen_steps = n }))
      else if bytes_eq a (codes "--parallel")
      then some (u64_value (λ n c. record c { parallel = n }))
      else if bytes_eq a (codes "--rate")
      then some (double_value (λ p c. record c { rate = p }))
      else if bytes_eq a (codes "--drop")
      then some (double_value (λ p c. record c { drop = p }))
      else if bytes_eq a (codes "--dup")
      then some (double_value (λ p c. record c { dup = p }))
      else if bytes_eq a (codes "--max-latency")
      then some (double_value (λ p c. record c { max_latency = conv.to_int p }))
      else if bytes_eq a (codes "--rto")
      then some (u64_value (λ n c. record c { rto = n }))
      else if bytes_eq a (codes "--minutes")
      then some (double_value (λ p c. record c { minutes = p }))
      else if bytes_eq a (codes "--failovers")
      then some (u64_value (λ n c. record c { failovers = n }))
      else if bytes_eq a (codes "--ckpt-interval")
      then some (u64_value (λ n c. record c { ckpt_interval = n }))
      else if bytes_eq a (codes "--verbose")
      then some (flag (λ c. record c { verbose = true }))
      else none

-- The counters of `main`.
pub record Totals : Type 0 where
  pub passed : ℕ
  pub failed : ℕ
  pub run : ℕ
  pub tot_issued : ℕ
  pub tot_req : ℕ
  pub tot_drop : ℕ
  pub tot_dup : ℕ
  pub worst_buf : ℕ
  pub worst_pending : ℕ
  pub worst_ack : ℕ

abbrev pub no_totals : Totals
no_totals = record {
  passed = 0;
  failed = 0;
  run = 0;
  tot_issued = 0;
  tot_req = 0;
  tot_drop = 0;
  tot_dup = 0;
  worst_buf = 0;
  worst_pending = 0;
  worst_ack = 0;
}

-- `std::max`
unfoldable pub max : ℕ → ℕ → ℕ
max a b = if ltb a b then b else a

-- The body of the loop over the seeds, on the statistics of a run.
unfoldable pub count_run : RunStats → Totals → Totals
unfolding max
count_run st t = record {
  passed = if st.result.ok then inc64 t.passed else t.passed;
  failed = if st.result.ok then t.failed else inc64 t.failed;
  run = inc64 t.run;
  tot_issued = add64 t.tot_issued st.issued;
  tot_req = add64 t.tot_req (add64 st.req_sent st.rsp_sent);
  tot_drop = add64 t.tot_drop (add64 st.req_dropped st.rsp_dropped);
  tot_dup = add64 t.tot_dup (add64 st.req_dup st.rsp_dup);
  worst_buf = max t.worst_buf st.max_resp_buffer;
  worst_pending = max t.worst_pending st.max_pending;
  worst_ack = max t.worst_ack st.max_ack_new;
}

module _ {G P : Type 0} (rand : Random G P) (cfg : Config P) where
  -- The loop over the seeds from the `k`-th on, with `left` rounds to go.
  unfoldable pub run_seeds : ℕ → ℕ → Totals → Totals
  run_seeds zero k t = t
  run_seeds (suc left) k t =
      run_seeds left (inc64 k) (count_run (run_one rand cfg (add64 cfg.base_seed k)) t)

  -- `return failed == 0 ? 0 : 1`
  unfoldable pub fuzz_exit : ℕ → Exit
  fuzz_exit runs = if (run_seeds runs 0 no_totals).failed == 0 then exited 0 else exited 1

-- `main`, where `timed` says how many seeds the clock allows.
unfoldable pub fuzz_main :
    {G P : Type 0} → Conversions P → Random G P → (P → Option ℕ) → List Bytes → Exit
fuzz_main conv rand timed args =
    with_args (parse_args (fuzz_setting conv) args (default_config conv))
      (λ cfg. fuzz_exit rand cfg (elim (timed cfg.minutes) [ none ↦ cfg.seeds | some runs ↦ runs ]))

exit_code : (n : ℕ) → ((if n == 0 then exited 0 else exited 1) ≡ exited 0) ↔ (n ≡ 0)
exit_code n = ((λ h. ground (arith, h)), (λ h. ground (arith, h)))

module _ {G P : Type 0} (rand : Random G P) (cfg : Config P) where
  -- The run with the `j`-th seed passes.
  abbrev pub Passed : ℕ → Type 0
  Passed j = (run_one rand cfg (cfg.base_seed + j)).result.ok ≡ true

  count_run-failed :
      (st : RunStats) (t : Totals)
      → t.failed + 1 < u64_mod
      → ((count_run st t).failed ≡ 0) ↔ ((t.failed ≡ 0) × (st.result.ok ≡ true))
  unfolding count_run
  count_run-failed st t room = elim (Bool-cases st.result.ok) [
    | inl ok ↦ rw ok ((λ h. (h, refl)), (λ h. h.0))
    | inr bad ↦
        rw bad ((λ h. absurd (omega (arith, inc64-eq t.failed room, h))), (λ h. absurd (cc (h.1))))
  ]

  count_run-failed_le :
      (st : RunStats) (t : Totals) → t.failed + 1 < u64_mod → (count_run st t).failed ≤ t.failed + 1
  unfolding count_run
  count_run-failed_le st t room = ground (arith, inc64-eq t.failed)

  run_seeds-failed :
      (left k : ℕ) (t : Totals)
      → t.failed + left < u64_mod
      → cfg.base_seed + k + left < u64_mod
      → ((run_seeds rand cfg left k t).failed ≡ 0)
        ↔ ((t.failed ≡ 0) × ((j : ℕ) → k ≤ j → j < k + left → Passed j))
  unfolding run_seeds
  run_seeds-failed zero k t few room = ((λ h. (h, λ j low high. absurd (omega arith))), (λ h. h.0))
  run_seeds-failed (suc left) k t few room =
      let st = run_one rand cfg (add64 cfg.base_seed k) in
      let seed : add64 cfg.base_seed k ≡ cfg.base_seed + k =
        add64-eq cfg.base_seed k (omega arith) in
      let next : inc64 k ≡ k + 1 = inc64-eq k (omega arith) in
      let first = count_run-failed st t (omega arith) in
      let later =
        run_seeds-failed left (inc64 k) (count_run st t)
          (omega (arith, count_run-failed_le st t (omega arith))) (omega arith) in
      (
        λ h.
            let (rest, all) = later.0 h in
            let (none_failed, ok) = first.0 rest in
            (
              none_failed,
              λ j low high. elim (Bool-cases (k == j)) [
                | inl same ↦
                    subst (λ n. (run_one rand cfg n).result.ok ≡ true)
                      (seed ∙ ap (λ i. cfg.base_seed + i) (==→eq k j same)) ok
                | inr other ↦ all j (ground (arith, other, next)) (omega (arith, next))
              ],
            ),
        λ h.
            let ok : st.result.ok ≡ true =
              subst (λ n. (run_one rand cfg n).result.ok ≡ true) (sym seed)
                (h.1 k (omega arith) (omega arith)) in
            later.1
              (first.1 (h.0, ok), λ j low high. h.1 j (omega (arith, next)) (omega (arith, next))),
      )

  -- The exit code is 0 exactly if every run with one of the seeds from the base on passes, for as
  -- many seeds as are run; no seed and no counter may overflow.
  pub fuzz_exit-zero :
      (runs : ℕ)
      → cfg.base_seed + runs < u64_mod
      → (fuzz_exit rand cfg runs ≡ exited 0) ↔ ((j : ℕ) → j < runs → Passed j)
  unfolding fuzz_exit
  fuzz_exit-zero runs room =
      let failed = (run_seeds rand cfg runs 0 no_totals).failed in
      let all = run_seeds-failed runs 0 no_totals (omega arith) (omega arith) in
      (
        λ h j low. (all.0 ((exit_code failed).0 h)).1 j (omega arith) (omega arith),
        λ h. (exit_code failed).1 (all.1 (refl, λ j _ low. h j (omega arith))),
      )
