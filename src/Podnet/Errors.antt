-- ===== src/Podnet/Errors.antt =====
-- The sentinel errors of pkg/podnet, and the errors that its methods build without a sentinel.
pub data PodnetError : Type 0 where
  -- ErrPoolExhausted, ErrNotAllocated, ErrOutOfRange (allocator.go)
  pool_exhausted not_allocated out_of_range : PodnetError
  -- ErrEmptyPodID (podnet.go), ErrBackendMismatch (guest.go), ErrIPInUse (reconcile.go)
  empty_pod_id backend_mismatch ip_in_use : PodnetError
  -- an alias manager's failure, and a pod that is bound to another address (reconcile.go)
  alias_failed rebind_refused : PodnetError
