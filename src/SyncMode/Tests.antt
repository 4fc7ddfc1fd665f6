-- ===== src/SyncMode/Tests.antt =====
-- The sync mode for a delta of ten.
use near_indexer_for_explore.Base.{some}
use near_indexer_for_explore.SyncMode.{
  sync_from_interruption, height_found, sync_mode, Resumes, sync_mode-Resumes,
}

sync_mode-Resumes_example :
    Resumes 10 1000 (sync_mode (sync_from_interruption 10) (height_found (some 1000)))
sync_mode-Resumes_example = sync_mode-Resumes 10 1000
