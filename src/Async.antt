-- ===== src/Async.antt =====
-- Heart/AbstractSpace/async.h and async.cpp: jobs that are run on the thread of their object.
--
-- A job changes a world of the type W and has a result. The work thread takes the queued jobs in
-- their order. The local variables endOfWork and resultOfWork of a waiting call are a frame, which
-- is gone when the call returns; a write to a frame that is gone is undefined, here `none`. The
-- events that the waiting thread processes are left out.
pub mod Awaited
pub mod Abandoned
use qt_network_protocol.Prelude.{
  ℕ, zero, suc, ◌+◌, List, [], ◌∷◌, ◌++◌, Bool, true, false, not, Option, none, some, Dict, nat_eq,
  lookup, insert, remove, if◌then◌else◌,
}

pub record Frame : Type 0 where
  pub end_of_work : Bool
  pub result_of_work : Bool

-- What invokeMethod queues: the job and the frame that it reports to, if any.
pub record Queued (W : Type 0) : Type 0 where
  pub job : W → W × Bool
  pub frame : Option ℕ

pub record Async (W : Type 0) : Type 0 where
  pub world : W
  pub queue : List (Queued W)
  pub frames : Dict ℕ Frame
  pub next_frame : ℕ

module _ {W : Type 0} where
  -- Async::asyncHandler
  unfoldable pub async_handler : Queued W → Async W → Option (Async W)
  async_handler q s =
      let (world, result) = q.job s.world in
      elim q.frame [
        | none ↦ some (record s { world = world })
        | some frame ↦ elim (lookup frame s.frames) [
          | none ↦ none
          | some _ ↦ some (record s {
            world = world;
            frames = insert frame (record { end_of_work = true; result_of_work = result }) s.frames;
          })
        ]
      ]

  -- The work thread takes its next job.
  unfoldable pub next_job : List (Queued W) → Async W → Option (Async W)
  next_job [] s = some s
  next_job (q ∷ queue) s = async_handler q (record s { queue = queue })

  -- The work thread takes a number of jobs.
  unfoldable pub take_jobs : ℕ → Async W → Option (Async W)
  take_jobs zero s = some s
  take_jobs (suc n) s = elim (next_job s.queue s) [ none ↦ none | some s' ↦ take_jobs n s' ]

  -- `*condition`, for the pointer to endOfWork of a frame
  unfoldable pub has_ended : ℕ → Async W → Bool
  has_ended frame s = elim (lookup frame s.frames) [ none ↦ false | some f ↦ f.end_of_work ]

  -- Async::waitFor, where the work thread takes `jobs` more jobs before the time is over.
  unfoldable pub wait_for : ℕ → ℕ → Async W → Option (Async W × Bool)
  wait_for frame zero s = some (s, has_ended frame s)
  wait_for frame (suc jobs) s = elim (has_ended frame s) [
    | true ↦ some (s, true)
    | false ↦ elim (next_job s.queue s) [ none ↦ none | some s' ↦ wait_for frame jobs s' ]
  ]

  -- The return of asyncLauncher behind waitFor: the frame goes.
  unfoldable pub close_frame : ℕ → Option (Async W × Bool) → Option (Async W × Bool)
  close_frame frame none = none
  close_frame frame (some (s, ended)) =
      let result : Bool = elim (lookup frame s.frames) [
        | none ↦ false
        | some f ↦ f.result_of_work
      ] in
      some (record s { frames = remove frame s.frames }, if not ended then false else result)

  abbrev pub enqueue : (W → W × Bool) → Option ℕ → Async W → Async W
  enqueue job frame s = record s { queue = s.queue ++ (record { job = job; frame = frame } ∷ []) }

  -- Async::asyncLauncher, for whether it is called on the thread of the object, whether that thread
  -- runs, and whether invokeMethod queues the job
  unfoldable pub async_launcher :
      Bool → Bool → Bool → ℕ → (W → W × Bool) → Bool → Async W → Option (Async W × Bool)
  async_launcher same_thread running invoked jobs job await s =
      if same_thread
      then (let (world, result) = job s.world in some (record s { world = world }, result))
      else if not running
      then some (s, false)
      else if not await
      then some (if invoked then enqueue job none s else s, invoked)
      else if not invoked
      then some (s, false)
      else (let frame = s.next_frame in
          let opened = record s {
            frames = insert frame (record { end_of_work = false; result_of_work = false }) s.frames;
            next_frame = suc frame;
          } in
          close_frame frame (wait_for frame jobs (enqueue job (some frame) opened)))
