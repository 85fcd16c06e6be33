-- ===== src/Api/Meta.antt =====
-- The parts of metav1 that the runner's own types are built on.
use software_distribution_pl.Prelude.{ℕ, ℤ, String, Map}

-- An instant, in nanoseconds since 1970 (metav1.Time, time.Time).
abbrev pub Time : Type 0
Time = ℕ

-- A signed number of nanoseconds (metav1.Duration, time.Duration).
abbrev pub Duration : Type 0
Duration = ℤ

-- The fields of metav1.ObjectMeta that the runner reads or writes.
pub record ObjectMeta : Type 0 where
  pub name : String
  pub namespace : String
  pub labels : Map String
  pub annotations : Map String

-- client.ObjectKey.
pub record ObjectKey : Type 0 where
  pub namespace : String
  pub name : String
