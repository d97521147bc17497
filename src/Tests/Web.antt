-- ===== src/Tests/Web.antt =====
-- Requests and the worker's thread.
use googletrends.Base.{
  ℕ, ◌+◌, ◌≡◌, refl, true, false, not, none, some, [], ◌∷◌, leb, ◌&&◌, if◌then◌else◌, ◌-◌,
}
use googletrends.Repository.Jobs.Harmless.{Harmless}
use googletrends.Collector.Floats.{thousandths}
use googletrends.Collector.Due.{repair}
use googletrends.Worker.{start_worker}
use googletrends.Web.{Server, text, upload, Form}
use googletrends.Web.Bulk.{Digits}
use googletrends.Web.Keywords.{handle_add_keyword}
use googletrends.Repository.Keywords.{create_keyword, get_keyword}
use googletrends.Repository.Jobs.{find_keyword}
use googletrends.Web.Routes.{
  add_keyword, bulk_update_keyword_timeframes, delete_keyword, collect_one, handle,
}
use googletrends.Web.Routes.Invariant.{handle-Harmless}
use googletrends.Web.Routes.Local.{GoesToLocal, handle-GoesToLocal}
use googletrends.Web.Routes.Errors.{handle-refused}
use googletrends.Worker.Steps.{
  System, stopped, looping, startup, tick, with_db, request, ticked, repaired, start, next,
  is_running, served,
}
use googletrends.Worker.Steps.Sound.{IsSound}
use googletrends.Worker.Steps.Safety.{Reach-exclusive}
use googletrends.Worker.Steps.Starts.{one, is_redirect, wished-starts}
use googletrends.Tests.Data.{tea_db, tea_db-IsJobTable, config}

abbrev tea_server : Server ℕ
tea_server = record { db = tea_db; worker_held = false }

-- The digits of ASCII.
abbrev ascii : Digits
ascii = record {
  is_digit = λ c. leb 48 c && leb c 57;
  decimal_value = λ c. if leb 48 c && leb c 57 then some (c - 48) else none;
}

abbrev ticks : ℕ → ℕ
ticks n = 500 + n

abbrev form : Form
form = record {
  timeframes = text "now 1-d" ∷ text "now 1-d" ∷ upload ∷ text "never" ∷ [];
  gprops = [];
  keyword_ids = text "1" ∷ text "x" ∷ [];
  action = some (text "add");
  next_url = some (text "//elsewhere.example/");
}

handle-Harmless_example : Harmless tea_db (handle ascii 5 ticks tea_server (delete_keyword 1)).1.db
handle-Harmless_example = handle-Harmless ascii 5 ticks tea_server (delete_keyword 1)

handle-GoesToLocal_example :
    GoesToLocal (handle ascii 5 ticks tea_server (bulk_update_keyword_timeframes form)).0
handle-GoesToLocal_example =
    handle-GoesToLocal ascii 5 ticks tea_server (bulk_update_keyword_timeframes form)

handle-refused_example : (handle ascii 5 ticks tea_server (add_keyword "TEA")).1 ≡ tea_server
unfolding handle_add_keyword create_keyword
handle-refused_example =
    handle-refused ascii 5 ticks tea_server (add_keyword "TEA") (λ a m. elim m [ ])
      (unfold handle in refl)

abbrev woken : System ℕ
woken = tick (startup tea_db 900 901)

abbrev repaired_system : System ℕ
repaired_system = with_db woken looping (repair (some 700) 701 woken.server.db)

abbrev after_deletion : System ℕ
after_deletion =
    served repaired_system (handle ascii 5 ticks repaired_system.server (delete_keyword 1)).1

-- The scheduler wakes the worker, and a keyword is deleted after its repairs.
Reach-exclusive_example :
    IsSound after_deletion
    × ((start_worker after_deletion.server.worker_held).0 ≡ not (is_running after_deletion.phase))
unfolding startup tick start_worker
Reach-exclusive_example =
    Reach-exclusive thousandths config ascii 5 tea_db 900 901 tea_db-IsJobTable
      (next (next (next start ticked) (repaired 700 701 refl)) (request ticks (delete_keyword 1)))

abbrev at_rest : System ℕ
at_rest = record { server = tea_server; phase = stopped }

wished-starts_example :
    let answer = handle ascii 5 ticks at_rest.server (collect_one 1 none) in
    (is_redirect answer.0 ≡ true) × (is_running (served at_rest answer.1).phase ≡ true)
unfolding find_keyword get_keyword
wished-starts_example =
    wished-starts ascii 5 ticks at_rest (one 1 none)
      (record { jobs = tea_db-IsJobTable; lock = refl; busy = tt }) refl
