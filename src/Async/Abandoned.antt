-- ===== src/Async/Abandoned.antt =====
-- A call that stops waiting for its job.
use qt_network_protocol.Prelude.{
  ℕ, suc, ◌≡◌, refl, List, [], ◌∷◌, ◌++◌, Bool, true, false, Option, none, some, Dict, nat_eq,
  lookup, insert, remove, lookup-insert, lookup-remove, length, arith, beq_refl, ◌∙◌, ap,
  append_assoc,
}
use qt_network_protocol.Stream.{AllOf}
use qt_network_protocol.Async.{
  Frame, Queued, Async, async_handler, next_job, take_jobs, has_ended, wait_for, close_frame,
  async_launcher,
}
use qt_network_protocol.Async.Awaited.{
  IsFree, after, state, beyond, beyond_lem, next_job-free, wait_for-ahead, seen,
}

module _ {W : Type 0} where
  -- The work thread goes on behind a call.
  abbrev pub go_on : ℕ → Option (Async W × Bool) → Option (Async W)
  go_on jobs none = none
  go_on jobs (some (s, _)) = take_jobs jobs s

  take_jobs-ahead :
      (ahead behind : List (Queued W)) (jobs : ℕ) (w : W) (frames : Dict ℕ Frame) (next : ℕ)
      → AllOf IsFree ahead
      → take_jobs (beyond ahead jobs) (state w (ahead ++ behind) frames next)
        ≡ take_jobs jobs (state (after ahead w) behind frames next)
  unfolding take_jobs
  take_jobs-ahead [] behind jobs w frames next free = refl
  take_jobs-ahead (q ∷ ahead) behind jobs w frames next free = ground (
    arith,
    take_jobs-ahead ahead behind jobs (q.job w).0 frames next free.1,
    next_job-free q (ahead ++ behind) (state w (q ∷ (ahead ++ behind)) frames next) free.0,
  )

  -- The job of a call whose frame is gone is undefined.
  take_jobs-gone :
      (job : W → W × Bool) (frame : ℕ) (w : W) (frames : Dict ℕ Frame) (next : ℕ)
      → lookup frame frames ≡ none
      → take_jobs 1 (state w (record { job = job; frame = some frame } ∷ []) frames next) ≡ none
  unfolding take_jobs next_job async_handler
  take_jobs-gone job frame w frames next gone = ground (arith, gone)

  -- A call that waits for its job while the object's thread takes only the jobs `ran` before the time
  -- is over returns false, its job stays in the queue behind the jobs `left`, and when the thread
  -- comes to it the job writes to the variables of the call that has returned.
  pub async_launcher-abandoned :
      (ran left : List (Queued W)) (job : W → W × Bool) (w : W) (frames : Dict ℕ Frame) (next : ℕ)
      → AllOf IsFree ran
      → AllOf IsFree left
      → let called =
          async_launcher false true true
            (length ran)
            job
            true
            (state w (ran ++ left) frames next) in
        let own : Queued W = record { job = job; frame = some next } in
        (seen called ≡ some (after ran w, left ++ (own ∷ []), false))
        × (go_on (suc (length left)) called ≡ none)
  unfolding async_launcher wait_for close_frame has_ended
  async_launcher-abandoned ran left job w frames next free_ran free_left =
      let own : Queued W = record { job = job; frame = some next } in
      let blank : Frame = record { end_of_work = false; result_of_work = false } in
      let opened : Dict ℕ Frame = insert next blank frames in
      let there = lookup-insert next next blank frames in
      let called =
        async_launcher false true true (length ran) job true (state w (ran ++ left) frames next) in
      let waits : has_ended next (state w (left ++ (own ∷ [])) opened (suc next)) ≡ false =
        ground (arith, there, beq_refl next) in
      let stopped : Async W = state (after ran w) (left ++ (own ∷ [])) opened (suc next) in
      let enough : length ran ≡ beyond ran 0 = omega (arith, beyond_lem ran 0) in
      let waited : wait_for next (length ran)
            (state w ((ran ++ left) ++ (own ∷ [])) opened (suc next))
          ≡ some (stopped, false) =
        ap (λ (n : ℕ). wait_for next n (state w ((ran ++ left) ++ (own ∷ [])) opened (suc next)))
          enough
        ∙ ap
            (λ (queue : List (Queued W)).
              wait_for next (beyond ran 0) (state w queue opened (suc next)))
            (append_assoc ran left (own ∷ []))
        ∙ wait_for-ahead ran (left ++ (own ∷ [])) next 0 w opened (suc next) free_ran waits
        ∙ ap (λ (b : Bool). some (stopped, b)) waits in
      let closed : Dict ℕ Frame = remove next opened in
      let made : called ≡ some (state (after ran w) (left ++ (own ∷ [])) closed (suc next), false) =
        ap (λ r. close_frame next r) waited in
      let rest : suc (length left) ≡ beyond left 1 = omega (arith, beyond_lem left 1) in
      let gone : lookup next closed ≡ none =
        ground (arith, lookup-remove next next opened, beq_refl next) in
      (
        ap seen made,
        ap (λ c. go_on (suc (length left)) c) made
            ∙ ap
                (λ (n : ℕ).
                  take_jobs n (state (after ran w) (left ++ (own ∷ [])) closed (suc next)))
                rest
            ∙ take_jobs-ahead left (own ∷ []) 1 (after ran w) closed (suc next) free_left
            ∙ take_jobs-gone job next (after left (after ran w)) closed (suc next) gone,
      )
