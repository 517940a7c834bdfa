-- ===== src/System/Lasting.antt =====
-- No task of a validated workflow definition gets stuck, whatever the processes of the platform do.
use automation_platform.Base.{ℕ, ◌≡◌, false, some, none, List, ◌++◌}
use automation_platform.Domain.{Uuid, Time, WorkflowDefinition}
use automation_platform.Errors.{ok}
use automation_platform.Plugins.{TaskPlugin}
use automation_platform.Executions.{Store, TaskRow, task, is_completed}
use automation_platform.Executions.Progress.{Progress, Progress-refl, Progress-trans}
use automation_platform.Executions.Liveness.{Cause}
use automation_platform.Processing.Safety.{start_phase-Progress}
use automation_platform.Launch.{prepare_start}
use automation_platform.Launch.Tables.{AreFresh}
use automation_platform.Launch.Safety.{prepare_start-Progress}
use automation_platform.Definitions.{validate_tasks, create_task_definitions}
use automation_platform.Definitions.Cycle.{CreateTaskDefinition}
use automation_platform.Definitions.Lasting.{validated-Cause, validated-IsExecutable}
use automation_platform.System.{Platform, Step, Reach}
use automation_platform.System.Moves.{finish_phase-Progress}
use automation_platform.System.Safety.{Safe, Step-Safe, Reach-Safe}

Step-Progress : (t : ℕ) {p q : Platform} → Step t p q → Safe p → Progress p.store q.store
Step-Progress t (Step.discover p) safe = Progress-refl p.store
Step-Progress t (Step.offer p ids now known) safe = Progress-refl p.store
Step-Progress t (Step.take p locked now token worker) safe = Progress-refl p.store
Step-Progress t (Step.beat p now c) safe = Progress-refl p.store
Step-Progress t (Step.give_back p c) safe = Progress-refl p.store
Step-Progress t (Step.conclude p now c ids known) safe = Progress-refl p.store
Step-Progress t (Step.begin p i now mine) safe =
    start_phase-Progress i now p.store safe.sound (safe.claims i mine)
Step-Progress t (Step.end_task p i result now mine) safe =
    finish_phase-Progress i result now p.store safe.sound
Step-Progress t (Step.launch p w fresh now definition store roots i new able starts) safe =
    prepare_start-Progress w fresh now definition p.store store roots i starts

-- No step loses a task, its parents, or a completion.
Reach-Progress : (t : ℕ) (p q : Platform) → Safe p → Reach t p q → Progress p.store q.store
Reach-Progress t p _ safe Reach.here = Progress-refl p.store
Reach-Progress t p r safe (Reach.next {q} reach step) =
    Progress-trans p.store q.store r.store (Reach-Progress t p q safe reach)
      (Step-Progress t step (Reach-Safe t safe reach))

-- No task of a validated workflow definition gets stuck. The tasks pass the validation, the workflow
-- definition holds the task definitions made of them with distinct ids, and in a safe platform a start
-- of it adds the task `i`. Whatever steps all processes take from there: if the task is not
-- completed, it or one that it waits for is offered by the reconciler, or is running, has failed or
-- was cancelled.
pub launched-Cause :
    (lease_timeout : ℕ) (registry : List TaskPlugin) (ids : ℕ → Uuid)
    (tasks : List CreateTaskDefinition) (definition : WorkflowDefinition) (p q : Platform)
    (w : Uuid) (fresh : ℕ → Uuid) (now : Time) (s : Store) (roots : List Uuid) (j i : Uuid)
    (r x : TaskRow)
    → ((m n : ℕ) → ids m ≡ ids n → m ≡ n)
    → validate_tasks registry tasks ≡ ok tt
    → create_task_definitions ids tasks ≡ ok definition.task_definitions
    → Safe p
    → AreFresh fresh p.store
    → prepare_start w fresh now (some definition) p.store ≡ ok (s, roots, j)
    → task i p.store ≡ none
    → task i s ≡ some r
    → Reach lease_timeout (record p { store = s; offered = roots ++ p.offered }) q
    → task i q.store ≡ some x
    → is_completed x.status ≡ false
    → Cause q.store i
launched-Cause t registry ids tasks definition p q w fresh now s roots j i r x distinct h made safe
      new starts free added reach found waits =
    let able = validated-IsExecutable registry ids tasks definition distinct h made in
    let p' = record p { store = s; offered = roots ++ p.offered } in
    let safe' : Safe p' =
      Step-Safe t (Step.launch p w fresh now definition s roots j new able starts) safe in
    validated-Cause registry ids tasks definition w fresh now p.store s q.store roots j i r x h made
      starts safe.sound free added (Reach-Progress t p' q safe' reach)
      (Reach-Safe t safe' reach).sound found waits
