-- ===== src/Api/Refusals.antt =====
-- An answer with an error means that nothing has happened.
use adp_pro.Prelude.{
  ◌≡◌, ◌⊎◌, inl, inr, String, string_eq, Bool, true, false, Option, arith, Option-cases,
}
use adp_pro.Panel.State.{Panel, Outside}
use adp_pro.Panel.Actions.{
  Request, add_download, pause_download, resume_download, stop_download, retry_download,
}
use adp_pro.Panel.Answers.{ask, pausing, resuming, stopping, retrying, ask-is_allowed}
use adp_pro.Api.Downloads.{
  ApiError, Answer, fails, not_pausable, not_resumable, not_stoppable, retry_refused, answer_of,
  require, get_download, pause, resume, stop, retry, remove, add, add_at,
}

pub data Query : Type 0 where
  gets pauses resumes stops retries removes : String → Query
  adds : Option String → Request → Query

unfoldable pub handle : Outside → Query → Panel → Panel × Answer
handle o (gets id) p = get_download id p
handle o (pauses id) p = pause o.env id p
handle o (resumes id) p = resume o.env id p
handle o (stops id) p = stop o.env id p
handle o (retries id) p = retry o id p
handle o (removes id) p = remove o.env id p
handle o (adds folder r) p = add o folder r p

abbrev pub is_error : Answer → Bool
is_error (fails e) = true
is_error _ = false

add_at-refused :
    (o : Outside) (r : Request) (p : Panel)
    → is_error (add_at o r p).1 ≡ true
    → (add_at o r p).0 ≡ p
unfolding add_at add_download
add_at-refused o r p h = ground arith

answer_of-refused :
    (id : String) (e : ApiError) (r : Panel × Bool) (p : Panel)
    → (r.1 ≡ true) ⊎ (r.0 ≡ p)
    → is_error (require p id (answer_of id e r)).1 ≡ true
    → (require p id (answer_of id e r)).0 ≡ p
unfolding answer_of
answer_of-refused id e r p k h = ground arith

-- A call that is answered with an error has left the panel as it was: its downloads, its queue,
-- its slots and its session.
handle-refused :
    (o : Outside) (q : Query) (p : Panel) → is_error (handle o q p).1 ≡ true → (handle o q p).0 ≡ p
unfolding handle get_download pause resume stop retry remove add
handle-refused o (gets id) p h = ground arith
handle-refused o (pauses id) p h =
    answer_of-refused id not_pausable (pause_download o.env id p) p
      (unfold ask in (ask-is_allowed o pausing id p).1) h
handle-refused o (resumes id) p h =
    answer_of-refused id not_resumable (resume_download o.env id p) p
      (unfold ask in (ask-is_allowed o resuming id p).1) h
handle-refused o (stops id) p h =
    answer_of-refused id not_stoppable (stop_download o.env id p) p
      (unfold ask in (ask-is_allowed o stopping id p).1) h
handle-refused o (retries id) p h = ground (
  arith,
  answer_of-refused id retry_refused (retry_download o id p) p
      (unfold ask in (ask-is_allowed o retrying id p).1),
)
handle-refused o (removes id) p h = ground arith
handle-refused o (adds folder r) p h = elim (Option-cases folder) [
  | inl e ↦ ground (arith, e, add_at-refused o r p)
  | inr (path, e) ↦
      ground (arith, e, add_at-refused o r p, add_at-refused o (record r { save_path = path }) p)
]
