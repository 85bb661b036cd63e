-- ===== src/Downloader/Late.antt =====
-- Reports that arrive late: after a stop, or from an earlier generation of workers.
use adp_pro.Prelude.{
  ℕ, ◌+◌, ◌≤◌, ◌≡◌, ◌≢◌, refl, ◌∙◌, sym, subst, List, [], ◌∷◌, All, arith, Bool, false,
}
use adp_pro.Core.Models.{is_terminal, stopped}
use adp_pro.Downloader.State.{Manager, Message, Env, update_progress}
use adp_pro.Downloader.Sidecar.{save_progress}
use adp_pro.Downloader.Finish.{
  on_worker_error, on_worker_finished, on_chunk_downloaded, on_verification_finished,
  on_verification_error,
}
use adp_pro.Downloader.Lifecycle.{handle_metadata_fetched, handle_metadata_error, stop}
use adp_pro.Downloader.Events.{
  Report, chunk_downloaded, finished, worker_error, verified, verification_error, metadata_fetched,
  metadata_error, receive, receive_all, IsStale,
}

-- What of a manager a late report may not touch.
pub record IsUntouched (m r : Manager) : Type 0 where
  pub status : r.status ≡ m.status
  pub file : r.file ≡ m.file
  pub sidecar : r.sidecar ≡ m.sidecar
  pub tasks : r.tasks ≡ m.tasks
  pub epoch : r.worker_epoch ≡ m.worker_epoch

IsUntouched-trans : {a b c : Manager} → IsUntouched a b → IsUntouched b c → IsUntouched a c
IsUntouched-trans f g = record {
  status = g.status ∙ f.status;
  file = g.file ∙ f.file;
  sidecar = g.sidecar ∙ f.sidecar;
  tasks = g.tasks ∙ f.tasks;
  epoch = g.epoch ∙ f.epoch;
}

receive-IsUntouched :
    (env : Env) (r : Report) (m : Manager)
    → m.status ≡ stopped
    → IsStale m.worker_epoch r
    → IsUntouched m (receive env r m)
unfolding receive
receive-IsUntouched env (chunk_downloaded size) m h s =
    unfold on_chunk_downloaded save_progress update_progress in ground arith
receive-IsUntouched env (finished epoch) m h s = unfold on_worker_finished in ground arith
receive-IsUntouched env (worker_error message epoch) m h s = unfold on_worker_error in ground arith
receive-IsUntouched env (verified valid epoch) m h s =
    unfold on_verification_finished in ground arith
receive-IsUntouched env (verification_error message epoch) m h s =
    unfold on_verification_error in ground arith
receive-IsUntouched env (metadata_fetched total ranges etag modified) m h s =
    unfold handle_metadata_fetched in ground arith
receive-IsUntouched env (metadata_error message) m h s =
    unfold handle_metadata_error in ground arith

receive_all-IsUntouched :
    (m : Manager) (late : List (Env × Report))
    → m.status ≡ stopped
    → All (λ p. IsStale m.worker_epoch p.1) late
    → IsUntouched m (receive_all m late)
unfolding receive_all
receive_all-IsUntouched m [] h s = record {
  status = refl;
  file = refl;
  sidecar = refl;
  tasks = refl;
  epoch = refl;
}
receive_all-IsUntouched m ((env, r) ∷ late) h s =
    let first = receive-IsUntouched env r m h s.0 in
    IsUntouched-trans first (
      receive_all-IsUntouched (receive env r m) late (first.status ∙ h)
        (subst (λ k. All (λ p. IsStale k p.1) late) (sym first.epoch) s.1))

-- The report was sent by a worker of epoch `k` or earlier, or carries no epoch.
abbrev pub IsFrom : ℕ → Report → Type 0
IsFrom k (finished e) = e ≤ k
IsFrom k (worker_error message e) = e ≤ k
IsFrom k (verified valid e) = e ≤ k
IsFrom k (verification_error message e) = e ≤ k
IsFrom k _ = Unit

IsFrom-IsStale : (k : ℕ) (r : Report) → IsFrom k r → IsStale (k + 1) r
IsFrom-IsStale k (finished e) h = omega arith
IsFrom-IsStale k (worker_error message e) h = omega arith
IsFrom-IsStale k (verified valid e) h = omega arith
IsFrom-IsStale k (verification_error message e) h = omega arith
IsFrom-IsStale k _ h = tt

All-IsStale :
    (k : ℕ) (late : List (Env × Report))
    → All (λ p. IsFrom k p.1) late
    → All (λ p. IsStale (k + 1) p.1) late
All-IsStale k [] h = tt
All-IsStale k ((env, r) ∷ late) h = (IsFrom-IsStale k r h.0, All-IsStale k late h.1)

stop_lem :
    (env : Env) (m : Manager)
    → is_terminal m.status ≡ false
    → ((stop env m).status ≡ stopped)
      × ((stop env m).worker_epoch ≡ m.worker_epoch + 1)
      × ((stop env m).file ≡ m.file)
unfolding stop is_terminal
stop_lem env m h = ground arith

-- A running download that is stopped stays stopped, whatever the workers, the verification and the
-- metadata request of its earlier life still report and in whatever order: nothing is started, and
-- neither the file nor the sidecar is touched.
pub stop_is_final :
    (env : Env) (m : Manager) (late : List (Env × Report))
    → is_terminal m.status ≡ false
    → All (λ p. IsFrom m.worker_epoch p.1) late
    → let r = receive_all (stop env m) late in
      (r.status ≡ stopped)
      × (r.tasks ≡ (stop env m).tasks)
      × (r.file ≡ m.file)
      × (r.sidecar ≡ (stop env m).sidecar)
stop_is_final env m late h s =
    let now = stop_lem env m h in
    let kept = receive_all-IsUntouched (stop env m) late now.0 (
      subst (λ k. All (λ p. IsStale k p.1) late) (sym now.1) (All-IsStale m.worker_epoch late s)) in
    (kept.status ∙ now.0, kept.tasks, kept.file ∙ now.2, kept.sidecar)

-- Whatever the status, a report of a worker or of a verification of another epoch changes nothing.
receive-stale :
    (env : Env) (m : Manager) (e : ℕ) (message : Message) (valid : Bool)
    → e ≢ m.worker_epoch
    → (receive env (finished e) m ≡ m)
      × (receive env (worker_error message e) m ≡ m)
      × (receive env (verified valid e) m ≡ m)
      × (receive env (verification_error message e) m ≡ m)
unfolding receive on_worker_finished on_worker_error on_verification_finished on_verification_error
receive-stale env m e message valid h = (ground arith, ground arith, ground arith, ground arith)
