-- ===== src/Panel/Steps.antt =====
-- Everything that can happen to the panel, as one step function.
use adp_pro.Prelude.{ℕ, String, min, max, List, [], ◌∷◌}
use adp_pro.Downloader.Events.{Report}
use adp_pro.Panel.State.{Panel, Outside, deliver}
use adp_pro.Panel.Actions.{
  Request, add_download, pause_download, resume_download, stop_download, retry_download,
  remove_download, tick, start_scheduled_now,
}

pub data Action : Type 0 where
  add : Request → Action
  pauses resumes stops retries removes starts_now : String → Action
  ticks sets_limit : ℕ → Action
  reports : String → Report → Action

-- `setRange(1, 10)` of the spin box; a new value alone starts nothing.
unfoldable pub set_limit : ℕ → Panel → Panel
set_limit n p = record p { max_active = max 1 (min n 10) }

unfoldable pub act : Outside → Action → Panel → Panel
act o (add r) p = (add_download o r p).0
act o (pauses id) p = (pause_download o.env id p).0
act o (resumes id) p = (resume_download o.env id p).0
act o (stops id) p = (stop_download o.env id p).0
act o (retries id) p = (retry_download o id p).0
act o (removes id) p = remove_download o.env id p
act o (starts_now id) p = start_scheduled_now o.env id p
act o (ticks now) p = tick o.env now p
act o (sets_limit n) p = set_limit n p
act o (reports id r) p = deliver o.env id r p

unfoldable pub act_all : Outside → List Action → Panel → Panel
act_all o [] p = p
act_all o (a ∷ rest) p = act_all o rest (act o a p)
