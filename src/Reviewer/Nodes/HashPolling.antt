-- ===== src/Reviewer/Nodes/HashPolling.antt =====
-- workflows/reviewer_workflow/nodes/temporal_hash_polling.py. What `fetcher.fetch_root` gives is the
-- argument `fetch`: the snapshot that it has stored, or the exception's text.
use hungrx_agent.Prelude.{Bool, true, false, not, Option, none, some, if◌then◌else◌}
use hungrx_agent.Text.{Text, text_eq}
use hungrx_agent.Schema.Menu.{Uuid}
use hungrx_agent.Schema.Restaurant.{Restaurant}
use hungrx_agent.Review.Rows.{
  Source, SourceSnapshot, Database, inputs_required, no_verified_source, fetch_failed,
  agent_run_trigger, reviewer, no_metrics, poll_failed, changed, unchanged,
}
use hungrx_agent.Review.Repositories.{log, mark_failed, mark_succeeded}
use hungrx_agent.Review.State.{temporal_hash_polling}
use hungrx_agent.Reviewer.State.{ReviewerState, no_keys, error_keys}
use hungrx_agent.Reviewer.Repositories.{
  get_verified_website_for_restaurant, get_latest_for_source, create_snapshot, create_run,
  update_metrics,
}

pub data Fetched : Type 0 where
  fetched : SourceSnapshot → Fetched
  fetch_error : Text → Fetched

abbrev pub Fetcher : Type 0
Fetcher = Uuid → Text → Fetched

unfoldable pub verified_fallback : Option Source → Option Source
verified_fallback none = none
verified_fallback (some source) = if source.is_verified_domain then some source else none

-- The database's source, or else the state's if it is verified
unfoldable pub active_source : Option Source → Option Source → Option Source
unfolding verified_fallback
active_source (some row) fallback = some row
active_source none fallback = verified_fallback fallback

-- `previous_hash is None or previous_hash != content_hash`
unfoldable pub hash_differs : Option SourceSnapshot → SourceSnapshot → Bool
hash_differs none fresh = true
hash_differs (some previous) fresh = not (text_eq previous.content_hash fresh.content_hash)

abbrev pub hash_of : Option SourceSnapshot → Option Text
hash_of none = none
hash_of (some s) = some s.content_hash

module _ {J : Type 0} where
  unfoldable pub poll_failure : Source → Uuid → Text → Database J → ReviewerState J × Database J
  poll_failure source run_id error db =
      let message = fetch_failed source.id error in
      (
        record (error_keys temporal_hash_polling message) {
          agent_run_id = some run_id;
          source = some source;
        },
        mark_failed run_id message (
            update_metrics run_id (record no_metrics { outcome = some poll_failed })
              (log agent_run_trigger run_id none none none db)),
      )

  -- An unchanged source ends the run with success.
  unfoldable pub close_unchanged : Bool → Uuid → Database J → Database J
  close_unchanged true run_id db = db
  close_unchanged false run_id db =
      mark_succeeded run_id (log agent_run_trigger run_id none none none db)

  unfoldable pub poll_success :
      Source
      → Uuid
      → Option SourceSnapshot
      → SourceSnapshot
      → Database J
      → ReviewerState J × Database J
  unfolding hash_differs
  poll_success source run_id previous fresh db =
      let differs = hash_differs previous fresh in
      (
        record no_keys {
          agent_run_id = some run_id;
          source = some source;
          previous_content_hash = hash_of previous;
          current_content_hash = some fresh.content_hash;
          hash_changed = some differs;
          polled_snapshot = some fresh;
        },
        close_unchanged differs run_id (
            update_metrics run_id
              (record {
                content_length_bytes = some fresh.content_length_bytes;
                hash_changed = some differs;
                outcome = some (if differs then changed else unchanged);
              })
              (create_snapshot fresh db)),
      )

  unfoldable pub poll_fetched : Source → Uuid → Fetched → Database J → ReviewerState J × Database J
  poll_fetched source run_id (fetch_error error) db = poll_failure source run_id error db
  poll_fetched source run_id (fetched fresh) db =
      poll_success source run_id (get_latest_for_source source.id db) fresh db

  unfoldable pub poll_source :
      Fetcher → Uuid → Option Source → Database J → ReviewerState J × Database J
  poll_source fetch restaurant_id none db =
      (error_keys temporal_hash_polling (no_verified_source restaurant_id), db)
  poll_source fetch restaurant_id (some source) db =
      let (run_id, created) = create_run reviewer (some restaurant_id) db in
      poll_fetched source run_id (fetch source.id source.url) created

  unfoldable pub poll_restaurant :
      Fetcher → Option Restaurant → Option Source → Database J → ReviewerState J × Database J
  unfolding active_source
  poll_restaurant fetch none fallback db = (error_keys temporal_hash_polling inputs_required, db)
  poll_restaurant fetch (some r) fallback db =
      poll_source fetch r.id (active_source (get_verified_website_for_restaurant r.id db) fallback)
        db

  unfoldable pub temporal_hash_polling_node :
      Fetcher → ReviewerState J → Database J → ReviewerState J × Database J
  temporal_hash_polling_node fetch state db = poll_restaurant fetch state.restaurant state.source db
