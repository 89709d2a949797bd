-- ===== src/Stage.antt =====
-- The two work-bucket stages of mmtk-core that the binding names.
pub data WorkBucketStage : Type 0 where
  prepare : WorkBucketStage
  vm_ref_closure : WorkBucketStage
