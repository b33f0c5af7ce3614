-- ===== src/Async/Awaited.antt =====
-- A call that waits for its job.
use qt_network_protocol.Prelude.{
  ℕ, ◌-◌, subst, sym, zero, suc, ◌+◌, ◌<◌, ◌≡◌, refl, List, [], ◌∷◌, ◌++◌, Bool, true, false,
  Option, none, some, Dict, nat_eq, lookup, insert, lookup-insert, length, arith, beq_refl, ◌∙◌, ap,
}
use qt_network_protocol.Stream.{AllOf}
use qt_network_protocol.Async.{
  Frame, Queued, Async, async_handler, next_job, has_ended, wait_for, close_frame, async_launcher,
}

module _ {W : Type 0} where
  -- A job that nobody waits for.
  abbrev pub IsFree : Queued W → Type 0
  IsFree q = q.frame ≡ none

  -- The world that a list of jobs makes.
  abbrev pub after : List (Queued W) → W → W
  after [] w = w
  after (q ∷ queue) w = after queue (q.job w).0

  abbrev pub state : W → List (Queued W) → Dict ℕ Frame → ℕ → Async W
  state world queue frames next_frame = record {
    world = world;
    queue = queue;
    frames = frames;
    next_frame = next_frame;
  }

  abbrev pub beyond : List (Queued W) → ℕ → ℕ
  beyond [] n = n
  beyond (q ∷ queue) n = suc (beyond queue n)

  pub beyond_lem : (queue : List (Queued W)) (n : ℕ) → beyond queue n ≡ length queue + n
  beyond_lem [] n = omega arith
  beyond_lem (q ∷ queue) n = omega (arith, beyond_lem queue n)

  pub next_job-free :
      (q : Queued W) (queue : List (Queued W)) (s : Async W)
      → IsFree q
      → next_job (q ∷ queue) s ≡ some (record s { world = (q.job s.world).0; queue = queue })
  unfolding next_job async_handler
  next_job-free q queue s h = ground (arith, h)

  -- Waiting goes on over the jobs that are ahead.
  pub wait_for-ahead :
      (ahead behind : List (Queued W)) (frame jobs : ℕ) (w : W) (frames : Dict ℕ Frame) (next : ℕ)
      → AllOf IsFree ahead
      → has_ended frame (state w behind frames next) ≡ false
      → wait_for frame (beyond ahead jobs) (state w (ahead ++ behind) frames next)
        ≡ wait_for frame jobs (state (after ahead w) behind frames next)
  unfolding wait_for has_ended
  wait_for-ahead [] behind frame jobs w frames next free waits = refl
  wait_for-ahead (q ∷ ahead) behind frame jobs w frames next free waits =
      let rest = wait_for-ahead ahead behind frame jobs (q.job w).0 frames next free.1 waits in
      ground (
        arith,
        waits,
        rest,
        next_job-free q (ahead ++ behind) (state w (q ∷ (ahead ++ behind)) frames next) free.0,
      )

  -- What a caller sees: the world, the queue and the result.
  abbrev pub seen : Option (Async W × Bool) → Option (W × List (Queued W) × Bool)
  seen none = none
  seen (some (s, result)) = some (s.world, s.queue, result)

  wait_for-ended :
      (frame jobs : ℕ) (s : Async W)
      → has_ended frame s ≡ true
      → wait_for frame jobs s ≡ some (s, true)
  unfolding wait_for
  wait_for-ended frame zero s e = ground (arith, e)
  wait_for-ended frame (suc jobs) s e = ground (arith, e)

  -- The job of a waiting call, when it is the next.
  wait_for-own :
      (job : W → W × Bool) (frame more : ℕ) (w : W) (frames : Dict ℕ Frame) (next : ℕ)
      (open_frame : Frame)
      → lookup frame frames ≡ some open_frame
      → open_frame.end_of_work ≡ false
      → seen (
          close_frame frame (
            wait_for frame
              (suc more)
              (state w (record { job = job; frame = some frame } ∷ []) frames next)))
        ≡ some ((job w).0, [], (job w).1)
  unfolding wait_for has_ended next_job async_handler close_frame
  wait_for-own job frame more w frames next open_frame found waits =
      let done : Dict ℕ Frame =
        insert frame (record { end_of_work = true; result_of_work = (job w).1 }) frames in
      let there =
        lookup-insert frame frame (record { end_of_work = true; result_of_work = (job w).1 })
          frames in
      let ended : has_ended frame (state (job w).0 [] done next) ≡ true =
        ground (arith, there, beq_refl frame) in
      ground (
        arith,
        found,
        waits,
        there,
        beq_refl frame,
        wait_for-ended frame more (state (job w).0 [] done next) ended,
      )

  awaited_beyond :
      (s : Async W) (job : W → W × Bool) (more : ℕ)
      → AllOf IsFree s.queue
      → seen (async_launcher false true true (beyond s.queue (suc more)) job true s)
        ≡ some ((job (after s.queue s.world)).0, [], (job (after s.queue s.world)).1)
  unfolding async_launcher close_frame wait_for has_ended next_job async_handler
  awaited_beyond s job more free =
      let frames : Dict ℕ Frame =
        insert s.next_frame (record { end_of_work = false; result_of_work = false }) s.frames in
      let there =
        lookup-insert s.next_frame s.next_frame
          (record { end_of_work = false; result_of_work = false }) s.frames in
      let own : Queued W = record { job = job; frame = some s.next_frame } in
      let waits : has_ended s.next_frame (state s.world (own ∷ []) frames (suc s.next_frame))
          ≡ false =
        ground (arith, there, beq_refl s.next_frame) in
      ap (λ r. seen (close_frame s.next_frame r))
        (wait_for-ahead s.queue (own ∷ []) s.next_frame (suc more) s.world frames (suc s.next_frame)
          free waits)
      ∙ wait_for-own job s.next_frame more (after s.queue s.world) frames (suc s.next_frame)
          (record { end_of_work = false; result_of_work = false })
          (ground (arith, there, beq_refl s.next_frame)) refl

  -- A call from another thread that waits for its job, where nobody waits for the jobs ahead, the
  -- object's thread runs and takes more jobs than those before the time is over: the jobs ahead are
  -- run in their order and then the call's, the result of which is returned, and the queue is empty.
  pub async_launcher-awaited :
      (s : Async W) (job : W → W × Bool) (jobs : ℕ)
      → AllOf IsFree s.queue
      → length s.queue < jobs
      → seen (async_launcher false true true jobs job true s)
        ≡ some ((job (after s.queue s.world)).0, [], (job (after s.queue s.world)).1)
  async_launcher-awaited s job jobs free enough =
      let more : ℕ = jobs - length s.queue - 1 in
      let same : jobs ≡ beyond s.queue (suc more) = omega (arith, beyond_lem s.queue (suc more)) in
      subst
        (λ (n : ℕ).
          seen (async_launcher false true true n job true s)
          ≡ some ((job (after s.queue s.world)).0, [], (job (after s.queue s.world)).1))
        (sym same) (awaited_beyond s job more free)
