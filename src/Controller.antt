-- ===== src/Controller.antt =====
-- internal/controller/dashboard: the reconcilers. A reconciler reads the clock, the cluster and the
-- network; what they answer is given for one call.
pub mod Bookmark
pub mod BookmarkGroup
pub mod InfoTile
use cupboard.Prelude.{ℕ, Option}
use cupboard.Kube.{KubeError}

-- What `Reconcile` returns, and the object that it hands to `Status().Update`, if it does.
pub record Outcome (A : Type 0) : Type 0 where
  -- `RequeueAfter`, in nanoseconds; 0 is none
  pub requeue_after : ℕ
  pub error : Option KubeError
  pub written : Option A
