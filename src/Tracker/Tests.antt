-- ===== src/Tracker/Tests.antt =====
-- Concrete trackers.
use rafuk.Base.{
  ◌≡◌, ◌≤◌, ◌+◌, refl, false, none, some, List, [], ◌∷◌, length, inr, max, str_dec, ℕ_discrete,
  keep,
}
use rafuk.Market.Sample.{plain_texts}
use rafuk.User.{max_active_trackers}
use rafuk.Tracker.{Filters, Tracker, Identity}
use rafuk.Tracker.Service.{Request, new_tracker, list_active_trackers, is_active_of, limit_of}
use rafuk.Tracker.Activation.{
  tracker_row, resume_paused_trackers, is_paused_of, resumed, has_identity, resume_loop,
}
use rafuk.Tracker.Rows.{how_many, IsKeyed}
use rafuk.Tracker.Resume.{is_same}
use rafuk.Tracker.Restart.{resume-keeps, resume-quota}
use rafuk.Tracker.Runs.{Command, create, delete, block, resume, run, run-quota, empty}

abbrev cheap : Filters
cheap = record {
  query = "ps5";
  strict_mode = false;
  min_discount_percent = none;
  max_price_byn = some 8_000_000;
  seller_type = none;
  condition = none;
  region_name = none;
  config_keyword = none;
  exclude_duplicates = false;
}

abbrev request : Request
request = record {
  user_id = 7;
  filters = cheap;
  interval_min = none;
  first_name = some "Anna";
  username = none;
  max_active = none;
}

-- A user creates a tracker twice, blocks the bot, comes back, and deletes it.
abbrev day : List Command
day = create request 100 ∷ create request 101 ∷ block 7 ∷ resume 7 ∷ delete 7 1 200 ∷ []

run-quota_example :
    IsKeyed (run plain_texts 15 day empty).trackers
    × ((i : Identity)
        → how_many (is_same plain_texts 7 i) (run plain_texts 15 day empty).trackers ≤ 1)
    × (length (list_active_trackers 7 (run plain_texts 15 day empty).trackers)
        ≤ max_active_trackers)
run-quota_example = run-quota plain_texts 15 day 7

-- The tracker 1 was paused by the scheduler, and 2 was deleted by the user.
abbrev gone : Tracker
gone = record (new_tracker plain_texts 2 7 cheap 15) { active = false; deleted_at = some 50 }

abbrev stopped : List Tracker
stopped = record (new_tracker plain_texts 1 7 cheap 15) { active = false } ∷ gone ∷ []

program : Unit {0}
unfolding tracker_row new_tracker resume_paused_trackers is_paused_of is_active_of
    list_active_trackers resume_loop resumed has_identity limit_of str_dec ℕ_discrete keep
program = tt

stopped-IsKeyed : IsKeyed stopped
unfolding program
stopped-IsKeyed = (refl, (refl, tt))

resume-keeps_example :
    tracker_row 2 (resume_paused_trackers plain_texts 15 7 none stopped).0 ≡ some gone
unfolding program
resume-keeps_example =
    resume-keeps plain_texts 15 7 none 2 gone stopped stopped-IsKeyed refl (inr (inr (λ e. cc)))

resume-quota_example :
    (length (list_active_trackers 7 (resume_paused_trackers plain_texts 15 7 none stopped).0)
      ≡ length (list_active_trackers 7 stopped)
        + length (resume_paused_trackers plain_texts 15 7 none stopped).1)
    × (length (list_active_trackers 7 stopped)
          + length (resume_paused_trackers plain_texts 15 7 none stopped).1
        ≤ max (limit_of none) (length (list_active_trackers 7 stopped)))
resume-quota_example = resume-quota plain_texts 15 7 7 none stopped stopped-IsKeyed
