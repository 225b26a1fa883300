-- ===== src/Jobqueue/Lists.antt =====
-- What the functions of the job list do to its length and its entries.
use libmcu.Base.{
  ℕ, suc, ◌≤◌, ◌≡◌, refl, false, ◌||◌, Option, none, some, List, [], ◌∷◌, ◌++◌, length, ◌==◌, arith,
}
use libmcu.Jobqueue.{is_job_scheduled, job_delete_internal}

-- No job is in the list twice: the links of a list with a job twice would be a cycle.
abbrev pub IsDistinct : List ℕ → Type 0
IsDistinct [] = Unit
IsDistinct (p ∷ ps) = (is_job_scheduled ps p ≡ false) × IsDistinct ps

-- The jobs among what threads run.
abbrev pub jobs_in : List (Option ℕ) → ℕ
jobs_in [] = 0
jobs_in (none ∷ js) = jobs_in js
jobs_in (some j ∷ js) = suc (jobs_in js)

pub jobs_in-middle :
    (before after : List (Option ℕ)) (x : Option ℕ)
    → jobs_in (before ++ after) ≤ jobs_in (before ++ (x ∷ after))
jobs_in-middle [] after none = omega arith
jobs_in-middle [] after (some j) = omega arith
jobs_in-middle (none ∷ before) after x = jobs_in-middle before after x
jobs_in-middle (some j ∷ before) after x = omega (arith, jobs_in-middle before after x)

pub length-job_delete_internal :
    (ps : List ℕ) (job : ℕ) → length (job_delete_internal ps job) ≤ length ps
unfolding job_delete_internal
length-job_delete_internal [] job = omega arith
length-job_delete_internal (p ∷ ps) job = ground (arith, length-job_delete_internal ps job)

pub is_job_scheduled-delete :
    (ps : List ℕ) (job x : ℕ)
    → is_job_scheduled ps x ≡ false
    → is_job_scheduled (job_delete_internal ps job) x ≡ false
unfolding job_delete_internal is_job_scheduled
is_job_scheduled-delete [] job x e = e
is_job_scheduled-delete (p ∷ ps) job x e = ground (arith, is_job_scheduled-delete ps job x)

pub is_job_scheduled-snoc :
    (ps : List ℕ) (job x : ℕ)
    → is_job_scheduled (ps ++ (job ∷ [])) x ≡ (is_job_scheduled ps x || job == x)
unfolding is_job_scheduled
is_job_scheduled-snoc [] job x = ground arith
is_job_scheduled-snoc (p ∷ ps) job x = ground (arith, is_job_scheduled-snoc ps job x)

pub job_delete_internal-IsDistinct :
    (ps : List ℕ) (job : ℕ) → IsDistinct ps → IsDistinct (job_delete_internal ps job)
unfolding job_delete_internal
job_delete_internal-IsDistinct [] job d = tt
job_delete_internal-IsDistinct (p ∷ ps) job (out, d) =
    ground (arith, job_delete_internal-IsDistinct ps job d, is_job_scheduled-delete ps job p out)

pub snoc-IsDistinct :
    (ps : List ℕ) (job : ℕ)
    → is_job_scheduled ps job ≡ false
    → IsDistinct ps
    → IsDistinct (ps ++ (job ∷ []))
unfolding is_job_scheduled
snoc-IsDistinct [] job e d = (refl, tt)
snoc-IsDistinct (p ∷ ps) job e (out, d) =
    (ground (arith, is_job_scheduled-snoc ps job p), snoc-IsDistinct ps job (ground arith) d)
