-- ===== src/Queue/Changes.antt =====
-- database/repositories/ingestion_queue_repository.py: what the guarded changes of a row do to the table.
use hungrx_agent.Prelude.{
  ◌≡◌, refl, inl, inr, Bool, true, false, Option, none, some, List, [], ◌∷◌, ◌==◌, Bool-cases,
  if◌then◌else◌, ==_iff,
}
use hungrx_agent.Text.{Text}
use hungrx_agent.Schema.Menu.{Uuid}
use hungrx_agent.Queue.Items.{
  IngestionQueueStatus, queued, IngestionQueueItem, is_queued, is_failed, given, change_if,
  requeue_if_failed, update_if_queued,
}

-- The first row of an id
pub find_item : Uuid → List IngestionQueueItem → Option IngestionQueueItem
find_item id [] = none
find_item id (row ∷ rows) =
    let later = find_item id rows in if row.id == id then some row else later

-- The change was made to a row that is allowed it, and no other row was touched.
pub record IsMade (allowed : IngestionQueueStatus → Bool)
    (change : IngestionQueueItem → IngestionQueueItem) (id : Uuid)
    (rows rows' : List IngestionQueueItem) : Type 0 where
  pub row : IngestionQueueItem
  pub found : find_item id rows ≡ some row
  pub is_allowed : allowed row.status ≡ true
  pub changed : find_item id rows' ≡ some (change row)
  pub others : (other : Uuid) → (id == other) ≡ false → find_item other rows' ≡ find_item other rows

-- The change was refused: there is no row of the id, or it is not allowed the change.
abbrev pub IsRefused : (IngestionQueueStatus → Bool) → Option IngestionQueueItem → Type 0
IsRefused allowed none = Unit
IsRefused allowed (some row) = allowed row.status ≡ false

abbrev pub IsGuarded :
    (IngestionQueueStatus → Bool)
    → (IngestionQueueItem → IngestionQueueItem)
    → Uuid
    → List IngestionQueueItem
    → Option (List IngestionQueueItem)
    → Type 0
IsGuarded allowed change id rows none = IsRefused allowed (find_item id rows)
IsGuarded allowed change id rows (some rows') = IsMade allowed change id rows rows'

module _ (allowed : IngestionQueueStatus → Bool) (change : IngestionQueueItem → IngestionQueueItem)
    (id : Uuid) where
  own-IsGuarded :
      (row : IngestionQueueItem) (rows : List IngestionQueueItem)
      → (row.id == id) ≡ true
      → (change row).id ≡ row.id
      → IsGuarded allowed change id
          (row ∷ rows)
          (if allowed row.status then some (change row ∷ rows) else none)
  unfolding find_item
  own-IsGuarded row rows e k = elim (Bool-cases (allowed row.status)) [
    | inl a ↦ rw a (record {
      row = row;
      found = rw e refl;
      is_allowed = a;
      changed = rw k (rw e refl);
      others = λ other n.
          let same : row.id ≡ id = (==_iff row.id id).0 e in
          let m : (row.id == other) ≡ false = rw same n in rw k (rw m refl);
    })
    | inr a ↦ rw a (rw e a)
  ]

  later-IsGuarded :
      (row : IngestionQueueItem) (rows : List IngestionQueueItem)
      (later : Option (List IngestionQueueItem))
      → (row.id == id) ≡ false
      → IsGuarded allowed change id rows later
      → IsGuarded allowed change id
          (row ∷ rows)
          (elim later [ none ↦ none | some rest ↦ some (row ∷ rest) ])
  unfolding find_item
  later-IsGuarded row rows none e g = rw e g
  later-IsGuarded row rows (some rest) e g = record {
    row = g.row;
    found = rw e g.found;
    is_allowed = g.is_allowed;
    changed = rw e g.changed;
    others = λ other n. elim (Bool-cases (row.id == other)) [
      | inl m ↦ rw m refl
      | inr m ↦ rw m (g.others other n)
    ];
  }

  change_if-IsGuarded :
      ((row : IngestionQueueItem) → (change row).id ≡ row.id)
      → (rows : List IngestionQueueItem)
      → IsGuarded allowed change id rows (change_if allowed change id rows)
  unfolding change_if find_item
  change_if-IsGuarded keeps [] = tt
  change_if-IsGuarded keeps (row ∷ rows) = elim (Bool-cases (row.id == id)) [
    | inl e ↦ simp e (own-IsGuarded row rows e (keeps row))
    | inr e ↦ simp e (
        later-IsGuarded row rows (change_if allowed change id rows) e
          (change_if-IsGuarded keeps rows))
  ]

requeue_if_failed-IsGuarded :
    (id : Uuid) (rows : List IngestionQueueItem)
    → IsGuarded is_failed
        (λ row. record row { status = queued; error_message = none })
        id
        rows
        (requeue_if_failed id rows)
unfolding requeue_if_failed
requeue_if_failed-IsGuarded id rows =
    change_if-IsGuarded is_failed (λ row. record row { status = queued; error_message = none }) id
      (λ row. refl) rows

update_if_queued-IsGuarded :
    (name menu_url nutrition_url : Option Text) (id : Uuid) (rows : List IngestionQueueItem)
    → IsGuarded is_queued
        (λ row. record row {
          name = given name row.name;
          menu_url = given menu_url row.menu_url;
          nutrition_url = given nutrition_url row.nutrition_url;
        })
        id
        rows
        (update_if_queued name menu_url nutrition_url id rows)
unfolding update_if_queued
update_if_queued-IsGuarded name menu_url nutrition_url id rows =
    change_if-IsGuarded is_queued
      (λ row. record row {
        name = given name row.name;
        menu_url = given menu_url row.menu_url;
        nutrition_url = given nutrition_url row.nutrition_url;
      })
      id (λ row. refl) rows

-- A retry is refused exactly of an id that has no row or whose row has not failed. Otherwise it makes that row
-- queued again without its error message, and touches no other row. An edit is refused exactly of an id that has
-- no row or whose row is not queued. Otherwise it sets the given fields of that row, leaves its others, and
-- touches no other row.
pub row_changes-IsGuarded :
    (name menu_url nutrition_url : Option Text) (id : Uuid) (rows : List IngestionQueueItem)
    → IsGuarded is_failed
        (λ row. record row { status = queued; error_message = none })
        id
        rows
        (requeue_if_failed id rows)
      × IsGuarded is_queued
          (λ row. record row {
            name = given name row.name;
            menu_url = given menu_url row.menu_url;
            nutrition_url = given nutrition_url row.nutrition_url;
          })
          id
          rows
          (update_if_queued name menu_url nutrition_url id rows)
row_changes-IsGuarded name menu_url nutrition_url id rows = (
  requeue_if_failed-IsGuarded id rows,
  update_if_queued-IsGuarded name menu_url nutrition_url id rows,
)
