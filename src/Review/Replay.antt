-- ===== src/Review/Replay.antt =====
-- workflows/collector_workflow/nodes/human_review.py: the node is run again from its top when the run is
-- resumed, and must not file the change a second time.
use hungrx_agent.Prelude.{
  ◌≡◌, refl, inl, inr, ◌⊎◌, Option, none, some, List, [], ◌∷◌, ◌∙◌, arith, ap, keep_if,
}
use hungrx_agent.Schema.Menu.{Uuid}
use hungrx_agent.Schema.Restaurant.{Restaurant}
use hungrx_agent.Review.Rows.{
  pending, ProposedChange, Database, Result, ok, raised, Gives, multiple_results_found, ◌>>=◌,
}
use hungrx_agent.Review.Repositories.{
  has_thread, scalar_one_or_none, get_by_thread_id, create_change, log,
}
use hungrx_agent.Review.State.{CollectorState}
use hungrx_agent.Review.Nodes.HumanReview.{
  Decision, first_entry, resumed, paused, returned, ensure_change, find_or_create, answer,
  review_given, human_review_node, apply_decision,
}

module _ {J : Type 0} where
  -- The row is the only one of the run's thread, and it is the row that was there before or a new one:
  -- pending, with the state's JSON, and the only change of the database but for the audit log.
  pub record IsFiled (run_id : Uuid) (json : J) (r : Restaurant) (db : Database J)
      (row : ProposedChange J) (db' : Database J) : Type 0 where
    pub unique : keep_if (has_thread run_id) db'.proposed_changes ≡ row ∷ []
    pub changes :
        (db'.proposed_changes ≡ db.proposed_changes)
        ⊎ ((db'.proposed_changes ≡ row ∷ db.proposed_changes)
            × (row.status ≡ pending)
            × (row.id ≡ db.next_id)
            × (row.entity_id ≡ r.id)
            × (row.structured_json ≡ json)
            × (row.thread_id ≡ some run_id))
    pub restaurants : db'.restaurants ≡ db.restaurants
    pub approvals : db'.approvals ≡ db.approvals

  ensure_change_lem :
      (rows : List (ProposedChange J)) (json : J) (r : Restaurant) (run_id : Uuid)
      (state : CollectorState J) (db : Database J)
      → keep_if (has_thread run_id) db.proposed_changes ≡ rows
      → Gives
          (λ (p : ProposedChange J × Database J). IsFiled run_id json r db p.0 p.1)
          (λ e. e ≡ multiple_results_found)
          (scalar_one_or_none rows >>= λ found. ok (ensure_change found json r run_id state db))
  unfolding scalar_one_or_none ensure_change create_change log keep_if has_thread
  ensure_change_lem [] json r run_id state db h = record {
    unique = ground arith;
    changes = inr (refl, refl, refl, refl, refl, refl);
    restaurants = refl;
    approvals = refl;
  }
  ensure_change_lem (row ∷ []) json r run_id state db h = record {
    unique = h;
    changes = inl refl;
    restaurants = refl;
    approvals = refl;
  }
  ensure_change_lem (row ∷ other ∷ rows) json r run_id state db h = refl

  pub find_or_create_lem :
      (json : J) (r : Restaurant) (run_id : Uuid) (state : CollectorState J) (db : Database J)
      → Gives
          (λ (p : ProposedChange J × Database J). IsFiled run_id json r db p.0 p.1)
          (λ e. e ≡ multiple_results_found)
          (find_or_create json r run_id state db)
  unfolding find_or_create get_by_thread_id
  find_or_create_lem json r run_id state db = ensure_change_lem _ json r run_id state db refl

  -- What the replay finds.
  found_again :
      (json : J) (r : Restaurant) (run_id : Uuid) (state : CollectorState J) (db : Database J)
      (row : ProposedChange J)
      → keep_if (has_thread run_id) db.proposed_changes ≡ row ∷ []
      → find_or_create json r run_id state db ≡ ok (row, db)
  unfolding find_or_create get_by_thread_id ensure_change scalar_one_or_none
  found_again json r run_id state db row h = rw h

  -- What a first entry of the node leads to.
  pub record IsPause (state : CollectorState J) (db db' : Database J) : Type 0 where
    pub json : J
    pub tree : Restaurant
    pub run_id : Uuid
    pub row : ProposedChange J
    pub json_of_state : state.structured_json ≡ some json
    pub tree_of_state : state.restaurant ≡ some tree
    pub run_of_state : state.agent_run_id ≡ some run_id
    pub filed : IsFiled run_id json tree db row db'
    pub replayed :
        (d : Option (Decision J))
        → human_review_node (resumed d) state db' ≡ ok (returned (apply_decision d row.id) db')

  pause_lem :
      (json : J) (r : Restaurant) (run_id : Uuid) (state : CollectorState J) (db : Database J)
      (found : Result (ProposedChange J × Database J))
      → state.structured_json ≡ some json
      → state.restaurant ≡ some r
      → state.agent_run_id ≡ some run_id
      → Gives
          (λ (p : ProposedChange J × Database J). IsFiled run_id json r db p.0 p.1)
          (λ e. e ≡ multiple_results_found)
          found
      → (db' : Database J) → (found >>= λ p. ok (answer first_entry p)) ≡ ok (paused db')
      → IsPause state db db'
  unfolding answer human_review_node review_given
  pause_lem json r run_id state db (ok (row, db1)) hj hr hi f db' h =
      let e : db1 ≡ db' = cc h in
      let f' : IsFiled run_id json r db row db' = rw e at f in
      record {
        json = json;
        tree = r;
        run_id = run_id;
        row = row;
        json_of_state = hj;
        tree_of_state = hr;
        run_of_state = hi;
        filed = f';
        replayed = λ d.
            (λ i. review_given (hj i) (hr i) (hi i) (resumed d) state db')
            ∙ ap (λ found. found >>= λ p. ok (answer (resumed d) p))
                (found_again json r run_id state db' row f'.unique);
      }
  pause_lem json r run_id state db (raised e) hj hr hi f db' h = cc h

  review_given_lem :
      (json : Option J) (r : Option Restaurant) (run_id : Option Uuid) (state : CollectorState J)
      (db db' : Database J)
      → state.structured_json ≡ json
      → state.restaurant ≡ r
      → state.agent_run_id ≡ run_id
      → review_given json r run_id first_entry state db ≡ ok (paused db')
      → IsPause state db db'
  unfolding review_given
  review_given_lem (some json) (some r) (some run_id) state db db' hj hr hi h =
      pause_lem json r run_id state db (find_or_create json r run_id state db) hj hr hi
        (find_or_create_lem json r run_id state db) db' h
  review_given_lem none r run_id state db db' hj hr hi h = cc h
  review_given_lem (some json) none run_id state db db' hj hr hi h = cc h
  review_given_lem (some json) (some r) none state db db' hj hr hi h = cc h

  -- If the node pauses, the database holds exactly one change of the run's thread, the one that it had
  -- or a new pending one with the state's JSON and the id of the state's restaurant, its production tables
  -- and approvals are as they were, and a replay of the node with a decision changes nothing and applies
  -- the decision to that change.
  pub human_review_node_pauses :
      (state : CollectorState J) (db db' : Database J)
      → human_review_node first_entry state db ≡ ok (paused db')
      → IsPause state db db'
  unfolding human_review_node
  human_review_node_pauses state db db' h = review_given_lem _ _ _ state db db' refl refl refl h
