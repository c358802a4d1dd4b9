-- ===== src/Tests/Queue.antt =====
-- The queue and its dispatcher on concrete data.
use hungrx_agent.Prelude.{◌+◌, ◌≡◌, ◌==◌, refl, none, some, List, [], ◌∷◌, length}
use hungrx_agent.Text.{Text, text, is_member}
use hungrx_agent.Text.Ascii.{ascii}
use hungrx_agent.Queue.Items.{
  queued, failed, is_queued, is_failed, given, requeue_if_failed, update_if_queued,
  IngestionQueueItem, IngestionQueueItemInput, create_rows, claim_next_queued,
}
use hungrx_agent.Queue.Batches.{
  HasDistinctNames, row_keys, input_keys, create_rows_lem, IsClaim, claim_next_queued_lem,
}
use hungrx_agent.Queue.Changes.{IsGuarded, row_changes-IsGuarded}
use hungrx_agent.Queue.Dispatcher.{
  acquire, release, Dispatch, initial, Step, trigger, enter, skip, chain, leave, Steps, done, next,
  Exclusive, Steps-Exclusive, IsOrphaned, Steps-IsOrphaned,
}

abbrev diner_input : IngestionQueueItemInput
diner_input = record { name = text "Diner"; menu_url = text "m"; nutrition_url = text "n" }

abbrev diner_again : IngestionQueueItemInput
diner_again = record { name = text " diner "; menu_url = text "m"; nutrition_url = text "n" }

create_rows_lem_example :
    let (rows, skipped) = create_rows ascii 1 none [] 10 (diner_input ∷ diner_again ∷ []) in
    HasDistinctNames ascii (row_keys ascii rows)
    × ((k : Text)
        → is_member k (row_keys ascii rows)
          ≡ is_member k (input_keys ascii (diner_input ∷ diner_again ∷ [])))
    × (length rows + length skipped ≡ length (diner_input ∷ diner_again ∷ []))
create_rows_lem_example = create_rows_lem ascii 1 none 10 (diner_input ∷ diner_again ∷ [])

abbrev item : IngestionQueueItem
item = record {
  id = 10;
  batch_id = 1;
  name = text "Diner";
  menu_url = text "m";
  nutrition_url = text "n";
  status = failed;
  restaurant_seed_id = none;
  error_message = none;
  created_by_user_id = none;
}

abbrev rows : List IngestionQueueItem
rows = item ∷ record item { id = 11; status = queued } ∷ []

row_changes-IsGuarded_example :
    IsGuarded is_failed
      (λ row. record row { status = queued; error_message = none })
      10
      rows
      (requeue_if_failed 10 rows)
    × IsGuarded is_queued
        (λ row. record row {
          name = given (some (text "Bar")) row.name;
          menu_url = given none row.menu_url;
          nutrition_url = given none row.nutrition_url;
        })
        10
        rows
        (update_if_queued (some (text "Bar")) none none 10 rows)
row_changes-IsGuarded_example = row_changes-IsGuarded (some (text "Bar")) none none 10 rows

claim_next_queued_lem_example :
    IsClaim (λ id. id == 10) rows (claim_next_queued (λ id. id == 10) rows)
claim_next_queued_lem_example = claim_next_queued_lem (λ id. id == 10) rows

abbrev triggered : Dispatch
triggered = record initial { jobs = 1 }

abbrev entered : Dispatch
entered = record { lock = some 0; jobs = 0; workers = 0 ∷ []; next_token = 1 }

abbrev chained : Dispatch
chained = record entered { jobs = 1 }

first_enters : Step triggered entered
unfolding acquire
first_enters = enter triggered 0 (some 0) refl refl

enters : Steps initial entered
enters =
    next initial triggered entered (next initial initial triggered (done initial) (trigger initial))
      first_enters

Steps-Exclusive_example : Exclusive (0 ∷ []) (some 0)
Steps-Exclusive_example = Steps-Exclusive entered enters

-- The job that is enqueued inside the block may be taken before the lock is released: then it is skipped,
-- and no job is left when the first one leaves.
chain_is_lost : Steps initial (record { lock = none; jobs = 0; workers = []; next_token = 1 })
unfolding acquire release
chain_is_lost =
    next initial entered _
      (next initial chained entered
        (next initial entered chained enters (chain entered (λ e. cc e)))
        (skip chained 0 refl refl))
      (leave entered [] [] 0 refl)

abbrev orphaned : Dispatch
orphaned = record entered { workers = [] }

Steps-IsOrphaned_example : IsOrphaned 0 (record orphaned { jobs = 1 })
Steps-IsOrphaned_example =
    Steps-IsOrphaned 0 orphaned (record orphaned { jobs = 1 })
      (next orphaned orphaned (record orphaned { jobs = 1 }) (done orphaned) (trigger orphaned))
      (refl, refl)
