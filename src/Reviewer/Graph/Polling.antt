-- ===== src/Reviewer/Graph/Polling.antt =====
-- workflows/reviewer_workflow/nodes/temporal_hash_polling.py: the poll after a poll.
use hungrx_agent.Prelude.{
  ◌≡◌, refl, ap, ◌∙◌, Bool, true, false, Option, some, List, [], ◌∷◌, ==_self,
}
use hungrx_agent.Text.{Text, text_eq}
use hungrx_agent.Schema.Menu.{Uuid}
use hungrx_agent.Schema.Restaurant.{Restaurant}
use hungrx_agent.Review.Rows.{Source, SourceSnapshot, Database, reviewer}
use hungrx_agent.Review.Repositories.{log, mark_succeeded}
use hungrx_agent.Review.Graph.{end}
use hungrx_agent.Reviewer.State.{ReviewerState, merge_keys}
use hungrx_agent.Reviewer.Repositories.{
  get_verified_website_for_restaurant, get_latest_for_source, latest_for_source, create_run,
  create_snapshot, update_metrics,
}
use hungrx_agent.Reviewer.Nodes.HashPolling.{
  Fetcher, fetched, active_source, hash_differs, poll_success, close_unchanged, poll_fetched,
  poll_source, poll_restaurant, temporal_hash_polling_node,
}
use hungrx_agent.Reviewer.Graph.{route_after_hash_polling}

text_eq_refl : (s : Text) → text_eq s s ≡ true
unfolding text_eq
text_eq_refl [] = refl
text_eq_refl (c ∷ s) = rw (==_self c) (text_eq_refl s)

stored_is_latest :
    (source : Source) (fresh again : SourceSnapshot) (rows : List SourceSnapshot)
    → fresh.source_id ≡ source.id
    → again.content_hash ≡ fresh.content_hash
    → hash_differs (latest_for_source source.id (fresh ∷ rows)) again ≡ false
unfolding latest_for_source hash_differs
stored_is_latest source fresh again rows s h =
    rw s (rw (==_self source.id) (rw h (rw (text_eq_refl fresh.content_hash) refl)))

module _ {J : Type 0} where
  -- The restaurant of the state has a verified website, of which the fetch gives a snapshot.
  pub record Polls (fetch : Fetcher) (state : ReviewerState J) (db : Database J) (source : Source)
      (fresh : SourceSnapshot) : Type 0 where
    pub restaurant : Restaurant
    pub given : state.restaurant ≡ some restaurant
    pub verified : get_verified_website_for_restaurant restaurant.id db ≡ some source
    pub answers : fetch source.id source.url ≡ fetched fresh

  abbrev created : Restaurant → Database J → Uuid × Database J
  created r db = create_run reviewer (some r.id) db

  poll_reaches :
      (fetch : Fetcher) (state : ReviewerState J) (db : Database J) (source : Source)
      (fresh : SourceSnapshot) (p : Polls fetch state db source fresh)
      → temporal_hash_polling_node fetch state db
        ≡ poll_success source
            (created p.restaurant db).0
            (get_latest_for_source source.id (created p.restaurant db).1)
            fresh
            (created p.restaurant db).1
  unfolding temporal_hash_polling_node poll_restaurant poll_source active_source poll_fetched
      create_run
  poll_reaches fetch state db source fresh p = rw p.given (rw p.verified (rw p.answers refl))

  close_unchanged_tables :
      (differs : Bool) (run_id : Uuid) (db : Database J)
      → ((close_unchanged differs run_id db).sources ≡ db.sources)
        × ((close_unchanged differs run_id db).snapshots ≡ db.snapshots)
  unfolding close_unchanged mark_succeeded log
  close_unchanged_tables true run_id db = (refl, refl)
  close_unchanged_tables false run_id db = (refl, refl)

  poll_success_snapshots :
      (source : Source) (run_id : Uuid) (previous : Option SourceSnapshot) (fresh : SourceSnapshot)
      (db : Database J)
      → (poll_success source run_id previous fresh db).1.snapshots ≡ fresh ∷ db.snapshots
  unfolding poll_success update_metrics create_snapshot
  poll_success_snapshots source run_id previous fresh db =
      (close_unchanged_tables (hash_differs previous fresh) run_id _).1

  poll_success_changed :
      (source : Source) (run_id : Uuid) (previous : Option SourceSnapshot) (fresh : SourceSnapshot)
      (db : Database J)
      → (poll_success source run_id previous fresh db).0.hash_changed
        ≡ some (hash_differs previous fresh)
  unfolding poll_success
  poll_success_changed source run_id previous fresh db = refl

  -- A poll that has stored its snapshot makes the next poll of the source with the same content report no
  -- change, whatever else has happened to the database in between, a failed re-extraction included: when
  -- the snapshots are those that the first poll left, the second one sets `hash_changed` to False and the
  -- graph ends after it. Both polls are of the source that is the verified website of the state's restaurant, and
  -- the stored snapshot names that source.
  pub poll_again-unchanged :
      (fetch later_fetch : Fetcher) (state later_state : ReviewerState J) (db later : Database J)
      (source : Source) (fresh again : SourceSnapshot)
      → Polls fetch state db source fresh
      → fresh.source_id ≡ source.id
      → later.snapshots ≡ (temporal_hash_polling_node fetch state db).1.snapshots
      → Polls later_fetch later_state later source again
      → again.content_hash ≡ fresh.content_hash
      → ((temporal_hash_polling_node later_fetch later_state later).0.hash_changed ≡ some false)
        × (route_after_hash_polling
              (merge_keys later_state (temporal_hash_polling_node later_fetch later_state later).0)
            ≡ end)
  unfolding route_after_hash_polling get_latest_for_source create_run
  poll_again-unchanged fetch later_fetch state later_state db later source fresh again p s h q e =
      let stored : later.snapshots ≡ fresh ∷ db.snapshots =
        h
        ∙ ap (λ (x : ReviewerState J × Database J). x.1.snapshots)
            (poll_reaches fetch state db source fresh p)
        ∙ poll_success_snapshots source _ _ fresh _ in
      let reported : (temporal_hash_polling_node later_fetch later_state later).0.hash_changed
          ≡ some false =
        ap (λ (x : ReviewerState J × Database J). x.0.hash_changed)
          (poll_reaches later_fetch later_state later source again q)
        ∙ poll_success_changed source _ _ again _
        ∙ ap some (rw stored (stored_is_latest source fresh again db.snapshots s e)) in
      (reported, rw reported refl)
