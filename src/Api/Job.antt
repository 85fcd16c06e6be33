-- ===== src/Api/Job.antt =====
-- The parts of corev1 and batchv1 that the runner fills in when it builds a Job. These types are outside this
-- repository; a field that no code sets, and a `valueFrom` of a variable, are left out.
use software_distribution_pl.Prelude.{ℤ, String, List, Option, Bool, Map}
use software_distribution_pl.Api.Meta.{ObjectMeta}

pub record EnvVar : Type 0 where
  pub name : String
  pub value : String

-- Quantities are texts.
pub record ResourceRequirements : Type 0 where
  pub limits : Map String
  pub requests : Map String

pub record VolumeMount : Type 0 where
  pub name : String
  pub mount_path : String
  pub read_only : Bool

pub record Container : Type 0 where
  pub name : String
  pub image : String
  pub command : List String
  pub args : List String
  pub env : List EnvVar
  pub env_from : List String  -- the names of Secrets
  pub resources : ResourceRequirements
  pub working_dir : String
  pub volume_mounts : List VolumeMount
  pub privileged : Option Bool

pub data VolumeSource : Type 0 where
  empty_dir : VolumeSource
  config_map : (name : String) (items : Map String) → VolumeSource

pub record Volume : Type 0 where
  pub name : String
  pub source : VolumeSource

pub record Job : Type 0 where
  pub meta : ObjectMeta
  pub generate_name : String
  pub backoff_limit : ℤ  -- int32
  pub active_deadline_seconds : Option ℤ
  pub ttl_seconds_after_finished : Option ℤ
  pub restart_policy : String
  pub service_account_name : String
  pub init_containers : List Container
  pub containers : List Container
  pub volumes : List Volume
