-- ===== src/Controller/Queue/Ends.antt =====
-- The two loops of `Controller.acquire`, and the leases that are ACTIVE after it.
use infer_stack.Base.{Option, none, some}
use infer_stack.Store.{Store}
use infer_stack.Controller.Acquire.Rollback.{NoneAdded, AddedOnly}
use infer_stack.Controller.Acquire.Clean.{IsClean}
use infer_stack.Controller.Queue.{
  Admission, stopped, infeasible, Queue, Acquired, not_acquired, delivered, released_on_timeout,
  interrupted,
}

-- The attempts are over.
abbrev AdmissionEnds : Store → Option (Store × Admission) → Type 0
AdmissionEnds s none = ⊥
AdmissionEnds s (some (t, stopped a)) = IsClean s (t, a)
AdmissionEnds s (some (t, infeasible why)) = NoneAdded s t

-- The acquire is over, and no lease is ACTIVE that was not, but the one that it delivers.
abbrev pub AcquireEnds : Store → Option (Store × Acquired) → Type 0
AcquireEnds s none = ⊥
AcquireEnds s (some (t, delivered answer r)) = AddedOnly answer.lease.id s t
AcquireEnds s (some (t, not_acquired why)) = NoneAdded s t
AcquireEnds s (some (t, released_on_timeout answer r p)) = NoneAdded s t
AcquireEnds s (some (t, interrupted p)) = NoneAdded s t
