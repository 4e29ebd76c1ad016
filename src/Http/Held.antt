-- ===== src/Http/Held.antt =====
-- color_interceptor.cc: the request objects that net_http hands over.
use color.Prelude.{
  ℕ, ◌+◌, ◌≡◌, inl, inr, Bool, true, false, ◌||◌, some, List, [], ◌∷◌, ◌++◌, leb, ◌==◌,
  if◌then◌else◌, arith, add64, Option-cases, Bool-cases,
}
use color.Text.{codes}
use color.Dict.{lookup}
use color.Dict.Laws.{lookup-insert_self}
use color.Dict.Counts.{
  one_if, count, values, IsMap, insert-IsMap, erase-IsMap, count-erase, count-insert_new,
  count-insert_old,
}
use color.Core.Message.{Seq, Response}
use color.Core.Server.{on_request}
use color.Http.Headers.{parse}
use color.Http.Interceptor.{
  HttpRequest, Ending, aborted, replied, Interceptor, is_empty, complete, finish, complete_all,
  write_checkpoint, maybe_checkpoint, on_replay, hold, refuse, answer, intercept,
}

abbrev pub ended : List Ending → List ℕ
ended [] = []
ended (aborted o ∷ endings) = o ∷ ended endings
ended (replied o status headers body ∷ endings) = o ∷ ended endings

-- How often an object is held or has ended.
abbrev pub accounts : {W : Type 0} → ℕ → Interceptor W → ℕ
accounts o t = count o (values t.pending) + count o (ended t.endings)

ended-append :
    (o : ℕ) (es fs : List Ending)
    → count o (ended (es ++ fs)) ≡ count o (ended es) + count o (ended fs)
unfolding count
ended-append o [] fs = omega arith
ended-append o (aborted p ∷ es) fs = omega (arith, ended-append o es fs)
ended-append o (replied p status headers body ∷ es) fs = omega (arith, ended-append o es fs)

either : (P : Bool → Type 0) (b : Bool) → P true → P false → P b
either P true yes_case no_case = yes_case
either P false yes_case no_case = no_case

module _ {W : Type 0} (o : ℕ) where
  -- From `t` to `t'`, the account of `o` grows by `n`.
  record Grows (t t' : Interceptor W) (n : ℕ) : Type 0 where
    map_kept : IsMap t'.pending
    grown : accounts o t' ≡ accounts o t + n

  finish-Grows :
      (t : Interceptor W) (object : ℕ) (resp : Response)
      → IsMap t.pending
      → lookup resp.seq t.pending ≡ some object
      → Grows t (finish t object resp) 0
  unfolding finish complete count
  finish-Grows t object resp h e = record {
    map_kept = erase-IsMap resp.seq t.pending h;
    grown = omega (
      arith,
      count-erase o resp.seq object t.pending h e,
      ended-append o t.endings (replied object 200 _ resp.payload ∷ []),
    );
  }

  complete_all-Grows :
      (t : Interceptor W) (responses : List Response) (n : ℕ)
      → IsMap t.pending
      → Grows t (complete_all t responses n).0 0
  unfolding complete_all
  complete_all-Grows t [] n h = record { map_kept = h; grown = omega arith }
  complete_all-Grows t (resp ∷ responses) n h = elim (Option-cases (lookup resp.seq t.pending)) [
    | inl e ↦ rw (e, complete_all) (complete_all-Grows t responses n h)
    | inr (object, e) ↦
        let first = finish-Grows t object resp h e in
        let rest = complete_all-Grows (finish t object resp) responses _ first.map_kept in
        rw (e, complete_all)
          (record { map_kept = rest.map_kept; grown = omega (arith, first.grown, rest.grown) })
  ]

  maybe_checkpoint-Grows :
      (t : Interceptor W) (n : ℕ) → IsMap t.pending → Grows t (maybe_checkpoint t n) 0
  unfolding maybe_checkpoint write_checkpoint
  maybe_checkpoint-Grows t n h =
      let same : Grows t t 0 = record { map_kept = h; grown = omega arith } in
      elim (Bool-cases (is_empty t.checkpoint_path || t.checkpoint_every == 0)) [
        | inl off ↦ rw (off, maybe_checkpoint) same
        | inr on ↦ elim (Bool-cases (leb t.checkpoint_every (add64 t.commits_since_ckpt n))) [
          | inl due ↦
              rw (on, maybe_checkpoint)
                (rw due (record { map_kept = same.map_kept; grown = same.grown }))
          | inr early ↦
              rw (on, maybe_checkpoint)
                (rw early (record { map_kept = same.map_kept; grown = same.grown }))
        ]
      ]

  hold-Grows :
      (t : Interceptor W) (seq : Seq) (object : ℕ)
      → IsMap t.pending
      → Grows t (hold t seq object) (one_if (object == o))
  unfolding count hold
  hold-Grows t seq object h = elim (Option-cases (lookup seq t.pending)) [
    | inl e ↦
        rw (e, hold)
          (record {
            map_kept = insert-IsMap seq object t.pending h;
            grown = omega (arith, count-insert_new o seq object t.pending e);
          })
    | inr (old, e) ↦
        rw (e, hold)
          (record {
            map_kept = insert-IsMap seq object t.pending h;
            grown = omega (
              arith,
              count-insert_old o seq object old t.pending e,
              ended-append o t.endings (aborted old ∷ []),
            );
          })
  ]

  refuse-Grows :
      (t : Interceptor W) (seq : Seq) (object from : ℕ)
      → IsMap t.pending
      → lookup seq t.pending ≡ some object
      → Grows t (refuse t seq object from) 0
  unfolding refuse count
  refuse-Grows t seq object from h e = record {
    map_kept = erase-IsMap seq t.pending h;
    grown = omega (
      arith,
      count-erase o seq object t.pending h e,
      ended-append o t.endings (replied object 503 _ [] ∷ []),
    );
  }

  completed-Grows :
      (t : Interceptor W) (responses : List Response)
      → IsMap t.pending
      → Grows t (maybe_checkpoint (complete_all t responses 0).0 (complete_all t responses 0).1) 0
  completed-Grows t responses h =
      let first = complete_all-Grows t responses 0 h in
      let rest =
        maybe_checkpoint-Grows (complete_all t responses 0).0 (complete_all t responses 0).1
          first.map_kept in
      record { map_kept = rest.map_kept; grown = omega (arith, first.grown, rest.grown) }

  answer-Grows :
      (t : Interceptor W) (seq : Seq) (object : ℕ) (responses : List Response)
      → IsMap t.pending
      → lookup seq t.pending ≡ some object
      → Grows t (answer t seq object responses) 0
  unfolding answer
  answer-Grows t seq object [] h e = maybe_checkpoint-Grows t 0 h
  answer-Grows t seq object (resp ∷ []) h e =
      let refused : Interceptor W = refuse t seq object resp.recover_from in
      let done = complete_all t (resp ∷ []) 0 in
      let fine : Interceptor W = maybe_checkpoint done.0 done.1 in
      either (λ b. Grows t (if b then refused else fine) 0) resp.recover
        (refuse-Grows t seq object resp.recover_from h e) (completed-Grows t (resp ∷ []) h)
  answer-Grows t seq object (resp ∷ resp' ∷ responses) h e =
      completed-Grows t (resp ∷ resp' ∷ responses) h

  on_replay-Grows :
      (t : Interceptor W) (req : HttpRequest)
      → IsMap t.pending
      → Grows t (on_replay t req) (one_if (req.object == o))
  unfolding on_replay count
  on_replay-Grows t req h = record {
    map_kept = h;
    grown = omega (arith, ended-append o t.endings (replied req.object 200 _ [] ∷ []));
  }

  -- On an interceptor whose map of held objects has distinct ids, one call for a request object, a
  -- replay or a request, keeps the ids distinct and adds one to how often this object is held or has
  -- ended, and nothing for any other object.
  pub intercept-accounts :
      (t : Interceptor W) (req : HttpRequest)
      → IsMap t.pending
      → IsMap (intercept t req).pending
        × (accounts o (intercept t req) ≡ accounts o t + one_if (req.object == o))
  unfolding intercept
  intercept-accounts t req h = elim (Bool-cases (is_empty (req.header (codes "Color-Replay")))) [
    | inr replay ↦
        let done = on_replay-Grows t req h in rw (replay, intercept) (done.map_kept, done.grown)
    | inl plain ↦
        let creq = parse req.header req.body in
        let first = hold-Grows t creq.seq req.object h in
        let held : Interceptor W = hold t creq.seq req.object in
        let served : Interceptor W = record held { core = (on_request held.core creq).0 } in
        let found : lookup creq.seq served.pending ≡ some req.object =
          unfold hold in lookup-insert_self creq.seq req.object t.pending in
        let rest =
          answer-Grows served creq.seq req.object (on_request held.core creq).1 first.map_kept
            found in
        rw (plain, intercept) (rest.map_kept, omega (arith, rest.grown, first.grown))
  ]
