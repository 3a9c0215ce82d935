-- ===== src/Operator/All/Reports.antt =====
-- What a sync of the operator reports, where the calls on the cluster operator succeed.
use openshift_machine_config.Common.{
  ◌≡◌, refl, ap, ◌∙◌, String, ◌==◌, Bool, true, false, ◌&&◌, Option, none, some, is_some, List, [],
  ◌∷◌, arith, Bool-cases, inl, inr, if◌then◌else◌,
}
use openshift_machine_config.Kube.{Pool}
use openshift_machine_config.Operator.{
  World, ClusterOperator, OperatorCondition, update_status, set_operator_status_extension, extend,
  get_all_versions,
}
use openshift_machine_config.Operator.Status.{
  SyncError, then_sync, clear_degraded_status, degrade, sync_version, sync_related_objects,
  sync_metrics, upgradeable_condition, skew_of_pools, keep_progressing,
}
use openshift_machine_config.Operator.Status.Upgradeable.{upgradeable_condition_lem}
use openshift_machine_config.Operator.All.{
  Task, Ran, run_tasks, after_clear, report_all, sync_all, outcome_of, end_sync, after_tasks,
}
use openshift_machine_config.Operator.All.Steps.{
  degraded_lem, available_lem, upgradeable_lem, versioned, version_lem, related_lem, metrics_lem,
  progressing_lem, clear-Holds, stands, IsWell, first_failing, holding, degraded_report,
  available_condition,
}

extend-conditions :
    (world : World) (l : Option (List Pool)) (co : ClusterOperator)
    → (extend world l co).conditions ≡ co.conditions
extend-conditions world none co = refl
extend-conditions world (some ps) co = refl

update_status-conditions :
    (world : World) (co : ClusterOperator) (c : OperatorCondition)
    → (update_status world co c).conditions ≡ world.helpers.set_status_condition co.conditions c
unfolding update_status set_operator_status_extension
update_status-conditions world co c =
    extend-conditions world world.pools
      (record co { conditions = world.helpers.set_status_condition co.conditions c })

module _ (world : World) (ps : List Pool) (well : IsWell world ps) where
  -- How the tasks end.
  record RanWell (e : SyncError) (b : Bool) (r : Ran) : Type 0 where
    error : r.error ≡ e
    clear : r.is_clear_error ≡ false
    operator : ClusterOperator
    stored : r.operator ≡ holding operator b

  run_tasks-RanWell :
      (tasks : List Task) (co : ClusterOperator) (b : Bool)
      → RanWell (first_failing tasks) b (run_tasks world tasks (holding co b))
  unfolding run_tasks
  run_tasks-RanWell [] co b = record { error = refl; clear = refl; operator = co; stored = refl }
  run_tasks-RanWell (t ∷ tasks) co b =
      let (new, e) = clear-Holds world ps well t.name co b in
      go t.fails new e (run_tasks-RanWell tasks new b)
    where
      go :
          (f : Bool) (new : ClusterOperator)
          → clear_degraded_status world t.name (holding co b) ≡ (holding new b, false)
          → RanWell (first_failing tasks) b (run_tasks world tasks (holding new b))
          → RanWell (if f then some t.name else first_failing tasks) b (
              if f
              then record {
                operator = holding co b;
                ran = t.name ∷ [];
                error = some t.name;
                is_saved = t.name == "MachineConfigDaemon";
                is_clear_error = false;
              }
              else after_clear world t.name
                  (run_tasks world tasks)
                  (clear_degraded_status world t.name (holding co b)))
      go true new e w = record { error = refl; clear = refl; operator = co; stored = refl }
      go false new e w =
          rw e
            (record { error = w.error; clear = w.clear; operator = w.operator; stored = w.stored })

  -- The object after the reports.
  reported : SyncError → ClusterOperator → ClusterOperator
  reported err co = versioned world ps well (
      update_status world (update_status world (degrade world err co) (available_condition err))
        (upgradeable_condition (skew_of_pools world ps) ps))

  report_all_lem :
      (err : SyncError) (co : ClusterOperator) (b : Bool)
      → report_all world err (holding co b) ≡ (holding (reported err co) b, false)
  unfolding report_all reported
  report_all_lem err co b =
      rw
        (
          degraded_lem world ps well err co b,
          available_lem world ps well err (degrade world err co) b,
        )
        (ap
            (λ r. then_sync world (sync_metrics world) (
              then_sync world (sync_related_objects world)
                (then_sync world (sync_version world) r)))
            (upgradeable_lem world ps well
              (update_status world (degrade world err co) (available_condition err)) b)
          ∙ ap
              (λ r.
                then_sync world (sync_metrics world)
                  (then_sync world (sync_related_objects world) r))
              (version_lem world ps well _ b)
          ∙ ap (λ r. then_sync world (sync_metrics world) r) (related_lem world ps well _ b)
          ∙ metrics_lem world ps well _ b)

  versioned-conditions :
      (co : ClusterOperator) → (versioned world ps well co).conditions ≡ co.conditions
  unfolding versioned set_operator_status_extension
  versioned-conditions co = elim (Bool-cases (stands world ps well co)) [
    | inl h ↦ rw h refl
    | inr h ↦ rw h (
        extend-conditions world world.pools
          (record co { versions = get_all_versions world.version_store }))
  ]

  reported-conditions :
      (err : SyncError) (co : ClusterOperator)
      → (reported err co).conditions
        ≡ world.helpers.set_status_condition
            (world.helpers.set_status_condition
              (world.helpers.set_status_condition
                (keep_progressing world err co).conditions
                (degraded_report err))
              (available_condition err))
            (upgradeable_condition (skew_of_pools world ps) ps)
  unfolding reported
  reported-conditions err co =
      let set = world.helpers.set_status_condition in
      let last = upgradeable_condition (skew_of_pools world ps) ps in
      versioned-conditions _
      ∙ update_status-conditions world _ last
      ∙ ap (λ cs. set cs last)
          (update_status-conditions world _ (available_condition err)
            ∙ ap (λ cs. set cs (available_condition err))
                (update_status-conditions world _ (degraded_report err)))

  -- What is found after the reports.
  reported-find :
      (err : SyncError) (co : ClusterOperator) (t : String)
      → world.helpers.find_status_condition (reported err co).conditions t ≡ (
          if "Upgradeable" == t
          then some (upgradeable_condition (skew_of_pools world ps) ps)
          else if "Available" == t
          then some (available_condition err)
          else if "Degraded" == t
          then some (degraded_report err)
          else world.helpers.find_status_condition (keep_progressing world err co).conditions t)
  reported-find err co t =
      let find_set = well.lawful.find_set in
      let set = world.helpers.set_status_condition in
      let last = upgradeable_condition (skew_of_pools world ps) ps in
      let first = set (keep_progressing world err co).conditions (degraded_report err) in
      let type : last.type ≡ "Upgradeable" =
        ap (λ (c : OperatorCondition). c.type)
          (upgradeable_condition_lem (skew_of_pools world ps) ps) in
      rw (reported-conditions err co) (
        ground (
          arith,
          type,
          find_set (set first (available_condition err)) last t,
          find_set first (available_condition err) t,
          find_set (keep_progressing world err co).conditions (degraded_report err) t,
        ))

  after_tasks_lem :
      (err : SyncError) (b : Bool) (r : Ran) (w : RanWell err b r)
      → after_tasks world r ≡ (holding (reported err w.operator) (b && is_some err), outcome_of err)
  after_tasks_lem err b r w =
      rw (w.clear, w.error, w.stored, report_all_lem err w.operator b) (go err b)
    where
      go :
          (e : SyncError) (b : Bool)
          → end_sync world e (holding (reported err w.operator) b, false)
            ≡ (holding (reported err w.operator) (b && is_some e), outcome_of e)
      go none true = refl
      go none false = refl
      go (some t) true = refl
      go (some t) false = refl

  -- Where every call on the cluster operator succeeds, a sync returns the error of the first task that
  -- fails. Degraded is then true exactly if a task has failed, Available is false exactly if that is
  -- another than RequiredPools, Upgradeable is what the pools say, and a cluster is brought up once no
  -- task fails. The helpers of library-go find a condition that was set, and the others as before.
  pub sync_all-reports :
      (tasks : List Task) (co : ClusterOperator) (b : Bool)
      → let err = first_failing tasks in
        let (op, outcome) = sync_all world tasks (holding co b) in
        (outcome ≡ outcome_of err)
        × ((new : ClusterOperator) × (op ≡ holding new (b && is_some err))
            × (world.helpers.find_status_condition new.conditions "Degraded"
                ≡ some (degraded_report err))
            × (world.helpers.find_status_condition new.conditions "Available"
                ≡ some (available_condition err))
            × (world.helpers.find_status_condition new.conditions "Upgradeable"
                ≡ some (upgradeable_condition (skew_of_pools world ps) ps)))
  unfolding sync_all
  sync_all-reports tasks co b =
      let (co1, e1) = progressing_lem world ps well co b in
      let err = first_failing tasks in
      let w = run_tasks-RanWell tasks co1 b in
      rw (e1, after_tasks_lem err b (run_tasks world tasks (holding co1 b)) w)
        (
          refl,
          (
            reported err w.operator,
            refl,
            reported-find err w.operator "Degraded",
            reported-find err w.operator "Available",
            reported-find err w.operator "Upgradeable",
          ),
        )
