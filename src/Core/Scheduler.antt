-- ===== src/Core/Scheduler.antt =====
-- src/adp/core/scheduler.py: start times by download id. Times are in seconds.
use adp_pro.Prelude.{ℕ, String, string_eq, Bool, Option, List, [], ◌∷◌, leb, if◌then◌else◌}
use adp_pro.Prelude.Dict.{Dict, get, put, remove, contains}

abbrev pub Schedule : Type 0
Schedule = Dict String ℕ

unfoldable pub schedule : Schedule → String → ℕ → Schedule
schedule s id when = put s id when

unfoldable pub unschedule : Schedule → String → Schedule
unschedule s id = remove s id

unfoldable pub is_scheduled : Schedule → String → Bool
is_scheduled s id = contains s id

unfoldable pub scheduled_time : Schedule → String → Option ℕ
scheduled_time s id = get s id

-- `[did for did, when in items if when <= now]`
unfoldable pub due_ids : ℕ → Schedule → List String
due_ids now [] = []
due_ids now ((id, when) ∷ s) = if leb when now then id ∷ due_ids now s else due_ids now s

-- `del self._schedule[id]` for each of them, in the loop that emits `due`.
unfoldable pub remove_all : List String → Schedule → Schedule
remove_all [] s = s
remove_all (id ∷ ids) s = remove_all ids (remove s id)

-- The ids for which `due` is emitted, in order, and the schedule left.
unfoldable pub check_due : ℕ → Schedule → List String × Schedule
unfolding due_ids remove_all
check_due now s = let ids = due_ids now s in (ids, remove_all ids s)
