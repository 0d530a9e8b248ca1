-- ===== src/Api/Meta.antt =====
-- What the program uses of the Kubernetes object model: metadata, conditions and reconcile results.
-- A label selector is kept as its serialized text, since the code only passes it on.
use Prim.Native.String.{String}
use airgap_snapshots.Base.{ℕ, Bool, List, Option, Failure}
use airgap_snapshots.Base.Dict.{Dict}
use airgap_snapshots.Base.Integer.{ℤ}
use airgap_snapshots.Base.Text.{Text}

-- A `metav1.Time`, in seconds.
abbrev pub Time : Type 0
Time = ℕ

abbrev pub LabelSelector : Type 0
LabelSelector = Text

pub record ObjectMeta : Type 0 where
  pub name : Text
  pub namespace : Text
  pub generation : ℤ
  pub deletion_timestamp : Option Time
  pub labels : Dict Text

-- The text of a status: a literal, a format with its arguments, or `err.Error()`.
pub data Message : Type 0 where
  literal : String → Message
  formatted : String → List Text → Message
  rendered : Failure → Message

pub record Condition : Type 0 where
  pub kind : String
  pub status : Bool
  pub reason : String
  pub message : Message
  pub observed_generation : ℤ

-- `ctrl.Result`: `RequeueAfter` in seconds, if any.
pub record ReconcileResult : Type 0 where
  pub requeue_after : Option ℕ
