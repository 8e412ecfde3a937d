-- ===== src/App/WorkerWrapper/Loop.antt =====
-- The results of a minion for the jobs that it is sent.
use stateline.Prelude.{ℕ, ◌≤◌, ◌≡◌, refl, List, [], ◌∷◌, All, map, int_max, Result, ok}
use stateline.Std.Key.{Str}
use stateline.Common.Text.{split_vector}
use stateline.Comms.Messages.{Message, result}
use stateline.Comms.Delegator.State.{Job, Worker, frame}
use stateline.Comms.Delegator.Polling.{job_message}
use stateline.Comms.Minion.{Minion, hello_range, read_sample, submit_result}
use stateline.Comms.Pipeline.Computed.{IsComputed, next_job-frames}
use stateline.App.WorkerWrapper.{minion_loop, run_minion}

module _ {Real : Type 0} (stod : Str → Result Real) (print : Real → Str)
    (likelihood : ℕ → List Real → Real) where
  -- A job whose type fits an `int`, with data that are numbers.
  abbrev pub IsReadable : Job × Str → Type 0
  IsReadable (j, content) =
      (j.type ≤ int_max)
      × ((sample : List Real) × (read_sample stod (split_vector content b':') ≡ ok sample))

  -- One result for each job, in order, with the id of the job and a text that is computed for it.
  abbrev pub Matches : List (Job × Str) → List Message → Type 0
  Matches [] [] = Unit {0}
  Matches [] (r ∷ rs) = ⊥
  Matches (j ∷ js) [] = ⊥
  Matches ((j, content) ∷ js) (r ∷ rs) =
      ((r.subject ≡ result)
        × ((text : Str) × (r.frames ≡ j.id ∷ text ∷ [])
            × IsComputed stod print likelihood j.type content text))
      × Matches js rs

  minion_loop_ok :
      (w : Worker) (jobs : List (Job × Str)) (m : Minion)
      → All IsReadable jobs
      → (results : List Message) × (minion_loop stod print likelihood
            (map (λ (p : Job × Str). job_message w p.0 p.1) jobs)
            m
          ≡ ok results)
        × Matches jobs results
  unfolding minion_loop submit_result frame
  minion_loop_ok w [] m h = ([], refl, tt)
  minion_loop_ok w ((j, content) ∷ jobs) m ((small, (sample, e)), h) =
      let m' : Minion = record { current_job = j.id } in
      let seen =
        next_job-frames stod print likelihood (job_message w j content) j.type j.id content sample m
          refl small e in
      let (results, done, matched) = minion_loop_ok w jobs m' h in
      (
        submit_result print (likelihood j.type sample) m' ∷ results,
        rw (seen, minion_loop) (rw done refl),
        (
          (
            refl,
            (
              print (likelihood j.type sample),
              refl,
              record {
                message = job_message w j content;
                job_id = j.id;
                frames_are = refl;
                before = m;
                after = m';
                type = j.type;
                sample = sample;
                reads = seen;
                sends = refl;
              },
            ),
          ),
          matched,
        ),
      )

  -- A minion that is sent JOB messages whose types fit an `int` and whose data are numbers sends a
  -- HELLO message with its range, and then one RESULT message for each of them, in order, with the id
  -- of the job and a text that is computed from its type and its data.
  pub run_minion_ok :
      (w : Worker) (range : ℕ × ℕ) (jobs : List (Job × Str))
      → All IsReadable jobs
      → (results : List Message) × (run_minion stod print likelihood range
            (map (λ (p : Job × Str). job_message w p.0 p.1) jobs)
          ≡ ok (hello_range range ∷ results))
        × Matches jobs results
  unfolding run_minion
  run_minion_ok w range jobs h =
      let (results, done, matched) = minion_loop_ok w jobs (record { current_job = [] }) h in
      (results, rw done refl, matched)
