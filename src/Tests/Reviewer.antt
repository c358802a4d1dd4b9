-- ===== src/Tests/Reviewer.antt =====
-- The reviewer's workflow on the sample restaurant, whose website is polled.
use hungrx_agent.Prelude.{List, map, ◌≡◌, refl, true, false, Option, none, some, [], ◌∷◌}
use hungrx_agent.Text.{Text, text, text_eq, starts_with}
use hungrx_agent.Text.Ascii.{ascii}
use hungrx_agent.Decimal.{decimal}
use hungrx_agent.Json.{Json, null, number, str, obj, member, end, get_member}
use hungrx_agent.Extraction.Extractor.{Extractor}
use hungrx_agent.Review.Kept.{IsKept}
use hungrx_agent.Schema.Menu.{Uuid}
use hungrx_agent.Validation.Result.{Place, key, index}
use hungrx_agent.Validation.SchemaCheck.{SchemaResult}
use hungrx_agent.Review.Rows.{
  Source, restaurant_website, SourceSnapshot, html, Database, ok, Gives, raised, key_error,
}
use hungrx_agent.Review.Graph.{World, end, find_checkpoint}
use hungrx_agent.Review.Decisions.{IsFresh, IsLawful}
use hungrx_agent.Reviewer.Delta.{removed, changed, added, FieldDelta}
use hungrx_agent.Reviewer.State.{ReviewerState, no_keys, merge_keys}
use hungrx_agent.Reviewer.Repositories.{get_verified_website_for_restaurant, verified_website}
use hungrx_agent.Reviewer.Patch.{
  apply_patch, same_position, id_if_filed, dish_position, after_children, scalar_field,
  scalar_named, target_dish, dishes_of_menu, dishes_of_category, nth, nth_category,
  dish_id_from_value, remove_named,
}
use hungrx_agent.Reviewer.Patch.Untouched.{KeepsDish}
use hungrx_agent.Reviewer.Patch.Moved.{IsMove, apply_patch-move}
use hungrx_agent.Reviewer.Patch.Rows.{
  delete_dish, find_dish, dish_rows, menus_dish_rows, category_dish_rows,
}
use hungrx_agent.Reviewer.Patch.Named.{apply_patch-KeepsDish, ShareDish, apply_patch-removal}
use hungrx_agent.Reviewer.Nodes.HashPolling.{Fetcher, fetched, temporal_hash_polling_node}
use hungrx_agent.Reviewer.Nodes.DeltaGeneration.{Differ}
use hungrx_agent.Reviewer.Graph.{reviewer_graph, start_review, route_after_hash_polling}
use hungrx_agent.Reviewer.Graph.Resumption.{both_graphs-IsLawful}
use hungrx_agent.Review.Collector.{collector_graph}
use hungrx_agent.Reviewer.Graph.Start.{start_review-IsFresh}
use hungrx_agent.Reviewer.Graph.Polling.{Polls, poll_again-unchanged}
use hungrx_agent.Reviewer.Paths.{
  dotted_path, dotted_parts, is_quoted, ends_with, drop_last, join_parts, join_part, at_token,
  lookup_tokens, reference_tokens,
}
use hungrx_agent.Reviewer.Paths.Dotted.{Step, name, item, step_text, steps_text, deepdiff_path}
use hungrx_agent.Reviewer.Paths.Reading.{dotted_path-deepdiff_path}
use hungrx_agent.Extraction.{answered, failed_with}
use hungrx_agent.Tests.Samples.{diner, fondue}
use hungrx_agent.Tests.Worlds.{py, empty, state, net, urls}
use hungrx_agent.Schema.Restaurant.{Restaurant}
use hungrx_agent.Sources.Results.{EntityCandidate}
use hungrx_agent.Review.State.{CollectorState}
use hungrx_agent.Review.Graph.{start_collecting}
use hungrx_agent.Review.Collector.Start.{start_collecting-IsFresh}

-- Ids are numbers here.
abbrev read_uuid : Json → Option Uuid
read_uuid (number d) = some d.coefficient
read_uuid _ = none

abbrev site : Source
site = record {
  id = 30;
  restaurant_id = 1;
  source_type = restaurant_website;
  url = text "https://diner.example";
  is_verified_domain = true;
}

abbrev snapshot : Uuid → SourceSnapshot
snapshot id = record {
  id = id;
  source_id = 30;
  content_type = html;
  content_hash = text "abc";
  storage_path = text "diner.html";
  http_status = some 200;
  content_length_bytes = some 5;
}

-- The production tables hold the diner, with its website.
abbrev live : Database SchemaResult
live = record empty { restaurants = diner ∷ []; sources = site ∷ [] }

abbrev at_rest : World SchemaResult
at_rest = record {
  database = live;
  checkpoints = [];
  reviews = [];
  unknown_thread = raised key_error;
  unknown_review = raised key_error;
}

at_rest-IsFresh : IsFresh at_rest
unfolding find_checkpoint
at_rest-IsFresh = record { collecting = λ t s h. absurd (cc h); reviewing = λ t s h. absurd (cc h) }

abbrev asked_for : ReviewerState SchemaResult
asked_for = record no_keys { restaurant = some diner }

abbrev fetch_with : Uuid → Fetcher
fetch_with id source_id url = fetched (snapshot id)

-- A crawler that captures the root only, and a model that is not reached
abbrev ex : Extractor
ex = record {
  hostname = λ url. some (text "diner.example");
  pages = record {
    fetch_html_or_pdf = λ id url. answered (record { snapshot = snapshot 41; page = none });
    fetch_rendered_html = λ id url. answered (record { snapshot = snapshot 42; page = none });
    links = λ page. [];
    join = λ base url. url;
    encoded_length = λ page. 9000;
  };
  read_text = λ path. some (text "Fondue 12");
  show_id = λ id. text "41";
  provider = record {
    discover = λ system content. failed_with (text "timeout");
    list_dishes = λ system content. failed_with (text "timeout");
  };
}

abbrev differ : Differ
differ = record { dump = λ r. null; deep_diff = λ old new. []; read_uuid = read_uuid }

both_graphs-IsLawful_example :
    IsLawful (collector_graph ascii py) × IsLawful (reviewer_graph ascii py read_uuid)
both_graphs-IsLawful_example = both_graphs-IsLawful ascii py read_uuid

start_review-IsFresh_example :
    Gives
      (λ (q : ReviewerState SchemaResult × World SchemaResult).
        IsKept live q.1.database × (q.0.human_approval_status ≡ none) × IsFresh q.1)
      (λ e. Unit)
      (start_review ascii py read_uuid (fetch_with 40) ex differ 9 asked_for at_rest)
start_review-IsFresh_example =
    start_review-IsFresh ascii py read_uuid (fetch_with 40) ex differ 9 asked_for at_rest
      at_rest-IsFresh refl

-- The provider's best guess for every restaurant
abbrev provider : Restaurant → List EntityCandidate
provider r =
    record {
      url = text "https://diner.example";
      provider_confidence = record { coefficient = 9; exponent = 1 };
    }
    ∷ []

start_collecting-IsFresh_example :
    Gives
      (λ (q : CollectorState SchemaResult × World SchemaResult).
        IsKept live q.1.database × (q.0.human_approval_status ≡ none) × IsFresh q.1)
      (λ e. Unit)
      (start_collecting ascii py net urls provider ex 9 state at_rest)
start_collecting-IsFresh_example =
    start_collecting-IsFresh ascii py net urls provider ex 9 state at_rest at_rest-IsFresh refl

abbrev after_poll : Database SchemaResult
after_poll = (temporal_hash_polling_node (fetch_with 40) asked_for live).1

first-Polls : Polls (fetch_with 40) asked_for live site (snapshot 40)
unfolding get_verified_website_for_restaurant verified_website
first-Polls = record { restaurant = diner; given = refl; verified = refl; answers = refl }

abbrev later : Database SchemaResult
later = record live { snapshots = after_poll.snapshots; next_id = 50 }

second-Polls : Polls (fetch_with 43) asked_for later site (snapshot 43)
unfolding get_verified_website_for_restaurant verified_website
second-Polls = record { restaurant = diner; given = refl; verified = refl; answers = refl }

poll_again-unchanged_example :
    ((temporal_hash_polling_node (fetch_with 43) asked_for later).0.hash_changed ≡ some false)
    × (route_after_hash_polling
          (merge_keys asked_for (temporal_hash_polling_node (fetch_with 43) asked_for later).0)
        ≡ end)
poll_again-unchanged_example =
    poll_again-unchanged (fetch_with 40) (fetch_with 43) asked_for asked_for live later site
      (snapshot 40) (snapshot 43) first-Polls refl refl second-Polls refl

abbrev at_fondue : Place → Place
at_fondue rest = key "menus" ∷ index 0 ∷ key "categories" ∷ index 0 ∷ key "dishes" ∷ index 0 ∷ rest

-- The price of the fondue has changed.
abbrev new_price : FieldDelta
new_price = record {
  path = at_fondue (key "price" ∷ []);
  op = changed;
  old_value = number (decimal 10);
  new_value = number (decimal 12);
  source_snapshot_ids = [];
}

-- Its first allergen is no longer there.
abbrev no_allergen : FieldDelta
no_allergen = record {
  path = at_fondue (key "allergens" ∷ index 0 ∷ []);
  op = removed;
  old_value = str (text "milk");
  new_value = null;
  source_snapshot_ids = [];
}

apply_patch-KeepsDish_example :
    Gives
      (KeepsDish 8 live)
      (λ e. Unit)
      (apply_patch read_uuid 1 diner (record { fields = new_price ∷ [] }) live)
unfolding dish_position after_children target_dish dishes_of_menu dishes_of_category nth
    nth_category
apply_patch-KeepsDish_example =
    apply_patch-KeepsDish read_uuid diner 8 1 (record { fields = new_price ∷ [] }) live
      ((refl, tt), tt)

share : ShareDish read_uuid 1 diner (0, 0, 0) no_allergen new_price live
unfolding dish_position after_children scalar_field scalar_named
share = record {
  removal_at = refl;
  other_at = refl;
  removal_no_scalar = refl;
  other_no_scalar = refl;
  is_removal = refl;
  is_no_removal = refl;
}

-- The new price is not written.
apply_patch-removal_example :
    (apply_patch read_uuid 1 diner (record { fields = no_allergen ∷ new_price ∷ [] }) live
      ≡ ok live)
    × (apply_patch read_uuid 1 diner (record { fields = new_price ∷ no_allergen ∷ [] }) live
        ≡ ok live)
unfolding remove_named dish_id_from_value
apply_patch-removal_example =
    apply_patch-removal read_uuid 1 diner (0, 0, 0) no_allergen new_price live share

-- `root['menus'][0]['name']`
abbrev steps : List Step
steps = name (text "menus") ∷ item (text "0") ∷ name (text "name") ∷ []

dotted : dotted_path (deepdiff_path steps) ≡ some (text "menus[0].name")
unfolding dotted_path deepdiff_path steps_text dotted_parts is_quoted starts_with ends_with
    drop_last join_parts join_part
dotted = refl

dotted_path-deepdiff_path_example :
    (dotted : Text) × (dotted_path (deepdiff_path steps) ≡ some dotted)
    × (lookup_tokens (at_token []) dotted ≡ some (map step_text steps))
    × (reference_tokens [] dotted ≡ map step_text steps)
dotted_path-deepdiff_path_example = dotted_path-deepdiff_path steps (
  (refl, (refl, (refl, (refl, (refl, tt))))),
  ((refl, tt), ((refl, (refl, (refl, (refl, tt)))), tt)),
)

-- The fondue has been moved in its category.
abbrev moved_away : FieldDelta
moved_away = record {
  path = key "menus" ∷ index 0 ∷ key "categories" ∷ index 0 ∷ key "dishes" ∷ index 1 ∷ [];
  op = removed;
  old_value = obj (
      member (text "id") (number (decimal 7))
        (member (text "category_id") (number (decimal 3)) end));
  new_value = null;
  source_snapshot_ids = [];
}

abbrev moved_here : FieldDelta
moved_here = record new_price { path = at_fondue []; op = added }

move : IsMove read_uuid 1 diner (0, 0, 1) (0, 0, 0) moved_away moved_here fondue live
unfolding dish_position after_children scalar_field scalar_named same_position dish_id_from_value
    id_if_filed get_member text_eq target_dish dishes_of_menu dishes_of_category nth nth_category
    find_dish dish_rows menus_dish_rows category_dish_rows
move = record {
  removal_at = refl;
  added_at = refl;
  removal_no_scalar = refl;
  added_no_scalar = refl;
  is_removal = refl;
  is_no_removal = refl;
  apart = refl;
  removes = refl;
  adds = refl;
  row = fondue;
  there = refl;
}

apply_patch-move_example :
    apply_patch read_uuid 1 diner (record { fields = moved_away ∷ moved_here ∷ [] }) live
    ≡ ok (delete_dish 7 live)
apply_patch-move_example =
    apply_patch-move read_uuid 1 diner (0, 0, 1) (0, 0, 0) moved_away moved_here fondue live move
