-- ===== src/Tests/Review.antt =====
-- The review of the sample restaurant. A JSON value is here what Pydantic makes of it.
use mathlib.Core.Bool.{decide}
use hungrx_agent.Validation.Result.{is_valid}
use hungrx_agent.Validation.RequiredFields.{
  check_dish_required_fields, content_issues, has_any_nutrition, location_issues,
  check_required_fields, menu_has_any_dish, any_category_has_dish,
}
use hungrx_agent.Validation.PriceRules.{check_price, currency_issues}
use hungrx_agent.Validation.NutritionRules.{
  atwater_expected_calories, atwater_tolerance, check_atwater_consistency, check_nutrition,
  check_plausible_bounds, check_serving_size_present, compare_with_atwater, lacks_serving_size,
  is_above,
}
use hungrx_agent.Validation.ImpossibleValues.{check_impossible_values}
use hungrx_agent.Validation.Engine.{
  validate, finish, rule_issues, all_menu_issues, menu_issues, iter_dishes, place_dishes,
  all_dish_issues, dish_issues,
}
use hungrx_agent.Validation.Duplicates.{
  append_path, duplicate_issue, group_by_name, name_issues, report_duplicates,
  check_duplicate_dishes,
}
use hungrx_agent.Validation.AllergenRules.{
  check_allergens, implied_allergens, sort_by_value, text_le, undeclared_allergens,
  undeclared_issue,
}
use hungrx_agent.Schema.Fields.{is_declared}
use hungrx_agent.Decimal.{add, distance, greatest, is_zero, less, mul}
use hungrx_agent.Prelude.{
  keep_if, ◌≡◌, ◌≢◌, refl, inl, inr, Option, none, some, [], ◌∷◌, Bool-cases, ◌==◌, any,
}
use hungrx_agent.Text.{
  Text, all_alpha, collapse, contains_text, drop_spaces, drop_trailing, is_alpha, is_member,
  join_words, name_key, split, split_head, starts_with, strip, text_eq,
}
use hungrx_agent.Text.Ascii.{ascii}
use hungrx_agent.Schema.Menu.{Uuid, Allergen-discrete, allergen_value, same_allergen}
use hungrx_agent.Validation.SchemaCheck.{SchemaResult, accepted, validate_schema}
use hungrx_agent.Review.Rows.{
  proposed_change_reject, rejected, proposed_change_create, ProposedChangeStatus, pending,
  ProposedChange, Database, ok, raised, key_error, conflict, ◌>>=◌, Gives,
}
use hungrx_agent.Review.Repositories.{
  get_by_id, find_change, create_approval, find_run, update_status, set_status, get_by_thread_id,
  scalar_one_or_none, create_change, log, has_thread,
}
use hungrx_agent.Review.State.{CollectorState, merge}
use hungrx_agent.Review.Nodes.{fail_run}
use hungrx_agent.Validation.Corrections.{
  apply_safe_corrections, correct_menus, correct_categories, correct_dishes, correct_dish,
  corrected_currency, corrected_description, corrected_ingredients, deduplicate_ingredients,
  first_entries,
}
use hungrx_agent.Review.Nodes.DeterministicValidation.{
  deterministic_validation_node, validate_given, validation_update, found_errors, validate_json,
  record_outcome, log_outcome, summary, to_state_issue, corrected_json,
}
use hungrx_agent.Review.Nodes.HumanReview.{
  apply_decision, decision_update, review_given, find_or_create, ensure_change, answer, source_id,
  Decision, first_entry, paused, human_review_node,
}
use hungrx_agent.Review.Nodes.Publish.{publish_node}
use hungrx_agent.Review.Publication.{IsPublishStep, IsPublishFailure, publish_node_lem}
use hungrx_agent.Review.Replay.{IsPause, human_review_node_pauses}
use hungrx_agent.Review.Graph.{
  ended_at, continue, run_human_review, after_human_review, follow, route_after_human_review, save,
  state_of, World, paused_at, find_checkpoint, resume, run_from_validation, after_validation,
  route_if_no_errors,
}
use hungrx_agent.Review.Service.{
  ReviewOutcome, reject_change, resume_review, require_pending, get_detail, expect_change,
  check_pending, require_thread, decision_status, apply_decided, record_decision, audit_action,
  graph_for, workflow_type_for, type_of_run, conclude, final_status,
}
use hungrx_agent.Review.Decisions.{IsFresh, IsDecided, resume_review_lem}
use hungrx_agent.Review.Once.{resume_review_once}
use hungrx_agent.Review.Collector.Steps.{output}
use hungrx_agent.Review.Collector.{collector_graph, collector_graph-IsLawful}
use hungrx_agent.Review.Threads.{IsResumable, resume_own_thread}
use hungrx_agent.Review.Rejection.{IsWaiting, IsRejected, reject_change_lem}
use hungrx_agent.Tests.Samples.{diner}
use hungrx_agent.Tests.Worlds.{py, empty, state, approved_state, change, waiting, rejection, graph}

publish_node_lem_example :
    Gives
      (IsPublishStep ascii py approved_state empty)
      (IsPublishFailure ascii py approved_state empty)
      (publish_node ascii py approved_state empty)
publish_node_lem_example = publish_node_lem ascii py approved_state empty

-- The database after the review node has paused.
abbrev filed : Database SchemaResult
filed = record empty {
  proposed_changes = change ∷ [];
  audit_log =
      record {
        action = proposed_change_create;
        entity_id = 20;
        actor_id = none;
        old_values = none;
        new_values = none;
      }
      ∷ [];
  next_id = 21;
}

pauses : human_review_node first_entry state empty ≡ ok (paused filed)
unfolding human_review_node review_given find_or_create get_by_thread_id scalar_one_or_none
    ensure_change create_change log answer keep_if source_id
pauses = refl

human_review_node_pauses_example : IsPause state empty filed
human_review_node_pauses_example = human_review_node_pauses state empty filed pauses

waiting-IsFresh : IsFresh waiting
unfolding find_checkpoint
waiting-IsFresh = record {
  collecting = λ t s h. elim (Bool-cases (9 == t)) [
    | inl e ↦ let same : paused_at state ≡ paused_at s = cc (rw e at h) in cc same
    | inr e ↦ absurd (cc (rw e at h))
  ];
  reviewing = λ t s h. absurd (cc h);
}

resume_review_lem_example :
    Gives
      (λ (p : ReviewOutcome SchemaResult × World SchemaResult).
        IsDecided 20 rejection 5 waiting p.0 p.1)
      (λ e. Unit)
      (resume_review graph graph 20 rejection 5 none waiting)
resume_review_lem_example =
    resume_review_lem graph graph (collector_graph-IsLawful ascii py)
      (collector_graph-IsLawful ascii py) rejection 5 none waiting waiting-IsFresh 20

abbrev rejected_change : ProposedChange SchemaResult
rejected_change = record change { status = rejected }

-- What the rejection of the change returns, and the world that it leaves.
abbrev outcome : ReviewOutcome SchemaResult
outcome = record {
  proposed_change = some rejected_change;
  published_restaurant_id = none;
  errors = [];
}

abbrev rejected_state : CollectorState SchemaResult
rejected_state = record state {
  proposed_change_id = some 20;
  human_approval_status = some rejected;
}

abbrev decided : World SchemaResult
decided = record {
  database = record empty {
    proposed_changes = rejected_change ∷ [];
    approvals =
        record {
          id = 21;
          proposed_change_id = 20;
          decision = rejected;
          reviewer_user_id = 5;
          reason = none;
        }
        ∷ [];
    audit_log =
        record {
          action = proposed_change_reject;
          entity_id = 20;
          actor_id = some 5;
          old_values = none;
          new_values = none;
        }
        ∷ [];
    next_id = 22;
  };
  checkpoints = (9, ended_at rejected_state) ∷ (9, paused_at state) ∷ [];
  reviews = [];
  unknown_thread = raised key_error;
  unknown_review = raised key_error;
}

rejects : resume_review graph graph 20 rejection 5 none waiting ≡ ok (outcome, decided)
unfolding resume_review require_pending get_detail expect_change check_pending get_by_id find_change
    require_thread decision_status apply_decided record_decision create_approval log audit_action
    graph_for workflow_type_for type_of_run find_run collector_graph output resume continue
    find_checkpoint run_human_review human_review_node review_given find_or_create get_by_thread_id
    scalar_one_or_none keep_if ensure_change answer apply_decision decision_update
    after_human_review follow route_after_human_review save state_of conclude update_status
    set_status final_status has_thread
rejects = refl

resume_review_once_example :
    (s : ProposedChangeStatus) × (s ≢ pending)
    × ((d : Decision SchemaResult) (reviewer_id : Uuid) (reason : Option Text)
        → resume_review graph graph 20 d reviewer_id reason decided ≡ raised (conflict s))
resume_review_once_example =
    resume_review_once graph graph (collector_graph-IsLawful ascii py)
      (collector_graph-IsLawful ascii py) waiting waiting-IsFresh 20 rejection 5 none decided
      outcome rejects

abbrev at_rest : World SchemaResult
at_rest = record {
  database = empty;
  checkpoints = [];
  reviews = [];
  unknown_thread = raised key_error;
  unknown_review = raised key_error;
}

-- The state after the validation, and the world with the run paused under a thread.
abbrev validated : CollectorState SchemaResult
validated = merge state (deterministic_validation_node ascii py state empty).0

abbrev paused_under : Uuid → World SchemaResult
paused_under thread = record {
  database =
      (ensure_change none (accepted (apply_safe_corrections ascii diner).0) diner 9 validated
        (deterministic_validation_node ascii py state empty).1).1;
  checkpoints = (thread, paused_at validated) ∷ [];
  reviews = [];
  unknown_thread = raised key_error;
  unknown_review = raised key_error;
}

starts_under :
    (thread : Uuid)
    → (run_from_validation ascii py state at_rest.database >>= λ reached.
        ok (save thread at_rest reached))
      ≡ ok (validated, paused_under thread)
unfolding any add distance greatest is_zero less mul is_declared Allergen-discrete allergen_value
    same_allergen all_alpha collapse contains_text drop_spaces drop_trailing is_alpha is_member
    join_words name_key split split_head starts_with strip text_eq check_allergens implied_allergens
    sort_by_value text_le undeclared_allergens undeclared_issue apply_safe_corrections correct_menus
    correct_categories correct_dishes correct_dish corrected_currency corrected_description
    corrected_ingredients deduplicate_ingredients first_entries append_path duplicate_issue
    group_by_name name_issues report_duplicates check_duplicate_dishes validate finish rule_issues
    all_menu_issues menu_issues iter_dishes place_dishes all_dish_issues dish_issues
    check_impossible_values atwater_expected_calories atwater_tolerance check_atwater_consistency
    check_nutrition check_plausible_bounds check_serving_size_present compare_with_atwater
    lacks_serving_size is_above check_price currency_issues check_dish_required_fields
    content_issues has_any_nutrition location_issues check_required_fields menu_has_any_dish
    any_category_has_dish validate_schema is_valid decide deterministic_validation_node
    validate_given validation_update found_errors validate_json record_outcome log_outcome summary
    to_state_issue corrected_json fail_run run_from_validation after_validation route_if_no_errors
    run_human_review after_human_review save state_of human_review_node review_given find_or_create
    ensure_change answer source_id get_by_thread_id scalar_one_or_none create_change log has_thread
    keep_if
starts_under thread = refl

waits_under_9 : find_checkpoint 9 (paused_under 9).checkpoints ≡ some (paused_at validated)
unfolding find_checkpoint
waits_under_9 = refl

resume_own_thread_example : IsResumable ascii py 9 validated (paused_under 9)
resume_own_thread_example =
    resume_own_thread ascii py 9 state validated at_rest (paused_under 9) (starts_under 9)
      waits_under_9

change-IsWaiting : IsWaiting 20 waiting change 9 state
unfolding get_by_id find_change workflow_type_for type_of_run find_run find_checkpoint
    get_by_thread_id scalar_one_or_none keep_if has_thread
change-IsWaiting = record {
  found = refl;
  is_pending = refl;
  of_thread = refl;
  of_collector = refl;
  waits = refl;
  json = _;
  has_json = refl;
  about = _;
  has_restaurant = refl;
  has_run = refl;
  filed = refl;
  unpublished = refl;
}

reject_change_lem_example :
    IsRejected ascii py graph 20 5 none waiting (reject_change graph graph 20 5 none waiting)
reject_change_lem_example =
    reject_change_lem ascii py graph 20 5 none waiting change 9 state
      (collector_graph-IsLawful ascii py) waiting-IsFresh change-IsWaiting
