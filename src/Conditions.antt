-- ===== src/Conditions.antt =====
-- pkg/apihelpers/apihelpers.go: the condition lists of a MachineConfigPool and of a
-- ControllerConfig. A function that changes `status.Conditions` takes and returns the list.
pub mod Lookup
pub mod Unique
use openshift_machine_config.Common.{
  ℕ, ◌≡◌, String, ◌==◌, Bool, true, false, ◌&&◌, not, Option, none, some, List, [], ◌∷◌, ◌++◌,
  nat_eq, if◌then◌else◌, select,
}
use openshift_machine_config.Kube.{Condition, status_true, status_false}

-- NewMachineConfigPoolCondition; `now` is the time that metav1.Now() returns.
unfoldable pub new_condition : ℕ → String → String → String → String → Condition
new_condition now type status reason message = record {
  type = type;
  status = status;
  last_transition_time = now;
  reason = reason;
  message = message;
}

-- The loop of GetMachineConfigPoolCondition: `latest` is LatestState.
pub get_from : String → Option Condition → List Condition → Option Condition
get_from t latest [] = latest
get_from t latest (c ∷ cs) = get_from t (if c.type == t then some c else latest) cs

unfoldable pub get_pool_condition : List Condition → String → Option Condition
unfolding get_from
get_pool_condition cs t = get_from t none cs

unfoldable pub filter_out_condition : List Condition → String → List Condition
filter_out_condition cs t = select (λ c. not (c.type == t)) cs

-- What is appended in place of the current condition.
abbrev pub keep_time : Condition → Condition → Condition
keep_time current c =
    if current.status == c.status
    then record c { last_transition_time = current.last_transition_time }
    else c

-- The guard of SetMachineConfigPoolCondition.
abbrev pub same_pool_condition : Condition → Condition → Bool
same_pool_condition current c =
    (current.status == c.status) && (current.reason == c.reason) && (current.message == c.message)

set_over : Option Condition → List Condition → Condition → List Condition
unfolding filter_out_condition
set_over none cs c = filter_out_condition cs c.type ++ c ∷ []
set_over (some current) cs c =
    if same_pool_condition current c
    then cs
    else filter_out_condition cs c.type ++ keep_time current c ∷ []

unfoldable pub set_pool_condition : List Condition → Condition → List Condition
unfolding get_pool_condition set_over
set_pool_condition cs c = set_over (get_pool_condition cs c.type) cs c

unfoldable pub remove_pool_condition : List Condition → String → List Condition
unfolding filter_out_condition
remove_pool_condition cs t = filter_out_condition cs t

-- The first condition of the type decides.
unfoldable pub is_condition_present_and_equal : List Condition → String → String → Bool
is_condition_present_and_equal [] t s = false
is_condition_present_and_equal (c ∷ cs) t s =
    if c.type == t then c.status == s else is_condition_present_and_equal cs t s

unfoldable pub is_condition_true : List Condition → String → Bool
unfolding is_condition_present_and_equal
is_condition_true cs t = is_condition_present_and_equal cs t status_true

unfoldable pub is_condition_false : List Condition → String → Bool
unfolding is_condition_present_and_equal
is_condition_false cs t = is_condition_present_and_equal cs t status_false

-- GetControllerConfigStatusCondition: the first match, where the pool's function takes the last.
unfoldable pub get_controller_condition : List Condition → String → Option Condition
get_controller_condition [] t = none
get_controller_condition (c ∷ cs) t = if c.type == t then some c else get_controller_condition cs t

-- The guard of SetControllerConfigStatusCondition does not read the message.
abbrev pub same_controller_condition : Condition → Condition → Bool
same_controller_condition current c = (current.status == c.status) && (current.reason == c.reason)

set_controller_over : Option Condition → List Condition → Condition → List Condition
unfolding filter_out_condition
set_controller_over none cs c = filter_out_condition cs c.type ++ c ∷ []
set_controller_over (some current) cs c =
    if same_controller_condition current c
    then cs
    else filter_out_condition cs c.type ++ keep_time current c ∷ []

unfoldable pub set_controller_condition : List Condition → Condition → List Condition
unfolding get_controller_condition set_controller_over
set_controller_condition cs c = set_controller_over (get_controller_condition cs c.type) cs c

pub data Completion : Type 0 where
  complete : Completion
  stale_status : ℕ → ℕ → Completion
  not_completed : Bool → Bool → Bool → Completion

-- IsControllerConfigCompleted after the getter has returned the object.
unfoldable pub is_controller_config_completed : ℕ → ℕ → List Condition → Completion
unfolding is_condition_true
is_controller_config_completed generation observed cs =
    let completed = is_condition_true cs "TemplateControllerCompleted" in
    let running = is_condition_true cs "TemplateControllerRunning" in
    let failing = is_condition_true cs "TemplateControllerFailing" in
    if not (nat_eq generation observed)
    then stale_status observed generation
    else if completed && not running && not failing
    then complete
    else not_completed completed running failing
