-- ===== src/Queue/Items.antt =====
-- core/schemas/ingestion_queue.py, database/models/ingestion_queue_item.py and
-- database/repositories/ingestion_queue_repository.py. The table is the list of its rows, oldest first;
-- times are left out. An operation that raises `InvalidQueueStateError` gives `none`. A row lock makes each
-- operation atomic, so that each is one function of the table; only a claim passes over locked rows.
use hungrx_agent.Prelude.{
  ◌+◌, Bool, true, false, not, ◌&&◌, Option, none, some, List, [], ◌∷◌, ◌++◌, ◌==◌, if◌then◌else◌,
}
use hungrx_agent.Text.{Text, Unicode, strip, is_member}
use hungrx_agent.Schema.Menu.{Uuid}

pub data IngestionQueueStatus : Type 0 where
  queued running succeeded failed : IngestionQueueStatus

-- `status == IngestionQueueStatus.QUEUED`, and so on
abbrev pub is_queued : IngestionQueueStatus → Bool
is_queued queued = true
is_queued _ = false

abbrev pub is_running : IngestionQueueStatus → Bool
is_running running = true
is_running _ = false

abbrev pub is_failed : IngestionQueueStatus → Bool
is_failed failed = true
is_failed _ = false

pub record IngestionQueueItemInput : Type 0 where
  pub name : Text
  pub menu_url : Text
  pub nutrition_url : Text

pub record IngestionQueueItem : Type 0 where
  pub id : Uuid
  pub batch_id : Uuid
  pub name : Text
  pub menu_url : Text
  pub nutrition_url : Text
  pub status : IngestionQueueStatus
  pub restaurant_seed_id : Option Uuid
  pub error_message : Option Text
  pub created_by_user_id : Option Uuid

module _ (u : Unicode) where
  -- `item.name.strip().lower()`
  unfoldable pub batch_key : Text → Text
  batch_key name = u.lower (strip u name)

  -- The loop of `create_batch`: the rows to add, with their ids from `id` on, and the names skipped.
  unfoldable pub create_rows :
      Uuid
      → Option Uuid
      → List Text
      → Uuid
      → List IngestionQueueItemInput
      → List IngestionQueueItem × List Text
  create_rows batch_id user seen id [] = ([], [])
  create_rows batch_id user seen id (item ∷ rest) =
      let key = batch_key item.name in
      let repeated = create_rows batch_id user seen id rest in
      let first = create_rows batch_id user (key ∷ seen) (id + 1) rest in
      let row : IngestionQueueItem = record {
        id = id;
        batch_id = batch_id;
        name = item.name;
        menu_url = item.menu_url;
        nutrition_url = item.nutrition_url;
        status = queued;
        restaurant_seed_id = none;
        error_message = none;
        created_by_user_id = user;
      } in
      if is_member key seen then (repeated.0, item.name ∷ repeated.1) else (row ∷ first.0, first.1)

  -- `create_batch`: the table with the new rows, and the names skipped
  unfoldable pub create_batch :
      Uuid
      → Option Uuid
      → Uuid
      → List IngestionQueueItemInput
      → List IngestionQueueItem
      → List IngestionQueueItem × List Text
  create_batch batch_id user id items table =
      let (rows, skipped) = create_rows batch_id user [] id items in (table ++ rows, skipped)

-- The rows that `SELECT … FOR UPDATE SKIP LOCKED` looks at: queued, and not locked by another transaction
abbrev pub is_claimable : (Uuid → Bool) → IngestionQueueItem → Bool
is_claimable locked row = is_queued row.status && not (locked row.id)

-- `claim_next_queued`: the claimed row, and the table. `locked` has the ids of the rows that other transactions
-- have locked.
unfoldable pub claim_next_queued :
    (Uuid → Bool) → List IngestionQueueItem → Option IngestionQueueItem × List IngestionQueueItem
claim_next_queued locked [] = (none, [])
claim_next_queued locked (row ∷ rows) =
    let later = claim_next_queued locked rows in
    let claimed = record row { status = running } in
    if is_claimable locked row then (some claimed, claimed ∷ rows) else (later.0, row ∷ later.1)

-- `_get_for_update`, the check of the status, and a change of the row
unfoldable pub change_if :
    (IngestionQueueStatus → Bool)
    → (IngestionQueueItem → IngestionQueueItem)
    → Uuid
    → List IngestionQueueItem
    → Option (List IngestionQueueItem)
change_if allowed change id [] = none
change_if allowed change id (row ∷ rows) =
    let later = change_if allowed change id rows in
    if row.id == id
    then if allowed row.status then some (change row ∷ rows) else none
    else elim later [ none ↦ none | some rest ↦ some (row ∷ rest) ]

unfoldable pub requeue_if_failed : Uuid → List IngestionQueueItem → Option (List IngestionQueueItem)
requeue_if_failed =
    change_if is_failed (λ row. record row { status = queued; error_message = none })

abbrev pub given : Option Text → Text → Text
given none old = old
given (some new) old = new

unfoldable pub update_if_queued :
    Option Text
    → Option Text
    → Option Text
    → Uuid
    → List IngestionQueueItem
    → Option (List IngestionQueueItem)
update_if_queued name menu_url nutrition_url = change_if is_queued (λ row. record row {
  name = given name row.name;
  menu_url = given menu_url row.menu_url;
  nutrition_url = given nutrition_url row.nutrition_url;
})

-- `mark_succeeded` and `mark_failed`: a missing row is passed over
unfoldable pub mark :
    IngestionQueueStatus → Option Text → Uuid → List IngestionQueueItem → List IngestionQueueItem
mark status message id [] = []
mark status message id (row ∷ rows) =
    let later = mark status message id rows in
    if row.id == id
    then record row { status = status; error_message = message } ∷ rows
    else row ∷ later

unfoldable pub delete_if_queued : Uuid → List IngestionQueueItem → Option (List IngestionQueueItem)
delete_if_queued id [] = none
delete_if_queued id (row ∷ rows) =
    let later = delete_if_queued id rows in
    if row.id == id
    then if is_queued row.status then some rows else none
    else elim later [ none ↦ none | some rest ↦ some (row ∷ rest) ]

unfoldable pub set_restaurant_seed_id :
    Uuid → Uuid → List IngestionQueueItem → List IngestionQueueItem
set_restaurant_seed_id seed_id id [] = []
set_restaurant_seed_id seed_id id (row ∷ rows) =
    let later = set_restaurant_seed_id seed_id id rows in
    if row.id == id then record row { restaurant_seed_id = some seed_id } ∷ rows else row ∷ later
