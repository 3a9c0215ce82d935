-- ===== src/Kube.antt =====
-- The Kubernetes and machine configuration objects that the controllers read and write, with the
-- fields in use. The types are declared in the API packages; a pointer or map that may be nil is an
-- `Option`, a time is a number, and a condition's type and status are texts, as in Go.
use openshift_machine_config.Common.{ℕ, ℤ, ◌%◌, ◌^◌, String, Bool, Option, List}
use openshift_machine_config.Common.StringMap.{StringMap}

-- `int32(n)`, as a bit pattern.
abbrev pub int32 : ℕ → ℕ
int32 n = n % 2 ^ 32

abbrev pub status_true : String
status_true = "True"

abbrev pub status_false : String
status_false = "False"

-- metav1 conditions as the pool and the controller config carry them.
pub record Condition : Type 0 where
  pub type : String
  pub status : String
  pub last_transition_time : ℕ
  pub reason : String
  pub message : String

pub record NodeCondition : Type 0 where
  pub type : String
  pub status : String

pub record Taint : Type 0 where
  pub key : String
  pub taint_value : String
  pub effect : String

pub record Node : Type 0 where
  pub name : String
  pub labels : StringMap
  pub annotations : StringMap
  pub creation_timestamp : ℕ
  pub unschedulable : Bool
  pub taints : List Taint
  pub conditions : List NodeCondition

pub record ObjectReference : Type 0 where
  pub kind : String
  pub api_version : String
  pub uid : String
  pub namespace : String
  pub name : String

pub record PoolConfiguration : Type 0 where
  pub name : String
  pub source : List ObjectReference

-- intstr.IntOrString
pub data IntOrString : Type 0 where
  int : ℤ → IntOrString
  text : String → IntOrString

pub record CertExpiry : Type 0 where
  pub bundle : String
  pub subject : String
  pub expiry : Option ℕ

pub record PoolStatus : Type 0 where
  pub observed_generation : ℕ
  pub machine_count : ℕ
  pub updated_machine_count : ℕ
  pub ready_machine_count : ℕ
  pub unavailable_machine_count : ℕ
  pub degraded_machine_count : ℕ
  pub cert_expirys : List CertExpiry
  pub configuration : PoolConfiguration
  pub conditions : List Condition

pub record Pool : Type 0 where
  pub name : String
  pub generation : ℕ
  pub labels : StringMap
  pub annotations : StringMap
  pub is_deleted : Bool
  pub configuration : PoolConfiguration
  pub max_unavailable : Option IntOrString
  pub paused : Bool
  pub status : PoolStatus
