-- ===== src/Cortex/Store/Restart.antt =====
-- agent_cortex/store.py: the jobs after a restart, and the confidence of a memory.
use swarmdeck.Prelude.{
  ℕ, ◌≡◌, refl, ap, sym, String, true, false, some, List, [], ◌∷◌, map, Bool-cases, inl, inr,
  if◌then◌else◌, str_eq, subst,
}
use swarmdeck.Cortex.Store.{CortexStore, Job, interrupt_running_jobs, is_running, get_job, find_job}

-- A restart stops a job that was running, and leaves every other as it was.
abbrev pub restarted : ℕ → Job → Job
restarted now j =
    if is_running j
    then record j {
      phase = "interrupted";
      error_text = some "Cortex restarted before the provider stream completed";
      updated_at = now;
    }
    else j

restarted_keeps_id : (now : ℕ) (j : Job) → (restarted now j).job_id ≡ j.job_id
restarted_keeps_id now j = elim (Bool-cases (is_running j)) [
  | inl r ↦ rw r refl
  | inr r ↦ rw r refl
]

pub find_job-map :
    (f : Job → Job) (keeps_id : (j : Job) → (f j).job_id ≡ j.job_id) (id : String) (js : List Job)
    (j : Job)
    → find_job id js ≡ some j
    → find_job id (map f js) ≡ some (f j)
unfolding find_job
find_job-map f keeps_id id [] j h = cc
find_job-map f keeps_id id (i ∷ js) j h = elim (Bool-cases (str_eq i.job_id id)) [
  | inl k ↦
      let same : i ≡ j = cc (rw k at h) in
      rw (subst (λ x. str_eq x id ≡ true) (sym (keeps_id i)) k) (ap (λ x. some (f x)) same)
  | inr k ↦
      rw (subst (λ x. str_eq x id ≡ false) (sym (keeps_id i)) k)
        (find_job-map f keeps_id id js j (rw k at h))
]

-- After a restart no job is running; one that was is interrupted, and every other is unchanged.
pub interrupt_running_jobs_lem :
    (id : String) (now : ℕ) (s : CortexStore) (j : Job)
    → get_job id s ≡ some j
    → (get_job id (interrupt_running_jobs now s).0 ≡ some (restarted now j))
      × (is_running (restarted now j) ≡ false)
unfolding get_job interrupt_running_jobs
interrupt_running_jobs_lem id now s j h = (
  find_job-map (restarted now) (restarted_keeps_id now) id s.jobs j h,
  elim (Bool-cases (is_running j)) [ inl r ↦ rw r refl | inr r ↦ rw r r ],
)
