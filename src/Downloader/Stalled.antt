-- ===== src/Downloader/Stalled.antt =====
-- The answer to a metadata request where the destination cannot be opened.
use adp_pro.Prelude.{ℕ, ◌<◌, ◌≡◌, Bool, true, String, Option, none, arith}
use adp_pro.Core.Models.{status_eq, starting}
use adp_pro.Downloader.State.{Manager, Env}
use adp_pro.Downloader.Lifecycle.{handle_metadata_fetched, claim_file, is_refused}

-- Where the destination does not exist and cannot be opened for writing either, the answer to the
-- metadata request leaves a starting download starting: no worker was given to the pool, and
-- neither an error nor anything else was reported.
unopened_file_stalls :
    (env : Env) (m : Manager) (total : ℕ) (ranges : Bool) (etag modified : Option String)
    → m.status ≡ starting
    → m.file ≡ none
    → is_refused env.allocation ≡ true
    → 0 < total
    → let r = handle_metadata_fetched env total ranges etag modified m in
      (r.status ≡ starting) × (r.tasks ≡ m.tasks) × (r.signals ≡ m.signals)
unfolding handle_metadata_fetched claim_file status_eq
unopened_file_stalls env m total ranges etag modified s f a l = ground arith
