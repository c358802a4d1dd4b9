-- ===== src/Queue/Batches.antt =====
-- database/repositories/ingestion_queue_repository.py: what a batch leaves in the queue, and what a claim
-- takes from it.
use hungrx_agent.Prelude.{
  ◌+◌, ◌≡◌, refl, sym, ap, ◌∙◌, inl, inr, Bool, true, false, not, ◌&&◌, Option, none, some, List,
  [], ◌∷◌, ◌++◌, All, length, arith, Bool-cases,
}
use hungrx_agent.Text.{Text, Unicode, is_member, text_eq}
use hungrx_agent.Text.Words.{text_eq_iff}
use hungrx_agent.Schema.Menu.{Uuid}
use hungrx_agent.Queue.Items.{
  running, is_claimable, IngestionQueueItem, IngestionQueueItemInput, batch_key, create_rows,
  claim_next_queued,
}

is_member_same :
    (j k : Text) (seen : List Text) → text_eq j k ≡ true → is_member k seen ≡ is_member j seen
is_member_same j k seen h = ap (λ x. is_member x seen) (sym ((text_eq_iff j k).0 h))

module _ (u : Unicode) where
  pub row_keys : List IngestionQueueItem → List Text
  row_keys [] = []
  row_keys (row ∷ rows) = batch_key u row.name ∷ row_keys rows

  pub input_keys : List IngestionQueueItemInput → List Text
  input_keys [] = []
  input_keys (item ∷ items) = batch_key u item.name ∷ input_keys items

  -- No key stands twice.
  abbrev pub HasDistinctNames : List Text → Type 0
  HasDistinctNames [] = Unit
  HasDistinctNames (k ∷ ks) = (is_member k ks ≡ false) × HasDistinctNames ks

  module _ (batch_id : Uuid) (user : Option Uuid) where
    length-create_rows :
        (seen : List Text) (id : Uuid) (items : List IngestionQueueItemInput)
        → length (create_rows u batch_id user seen id items).0
            + length (create_rows u batch_id user seen id items).1
          ≡ length items
    unfolding create_rows
    length-create_rows seen id [] = refl
    length-create_rows seen id (item ∷ items) = ground (
      arith,
      length-create_rows seen id items,
      length-create_rows (batch_key u item.name ∷ seen) (id + 1) items,
    )

    is_member-create_rows :
        (k : Text) (seen : List Text) (id : Uuid) (items : List IngestionQueueItemInput)
        → is_member k (row_keys (create_rows u batch_id user seen id items).0)
          ≡ (is_member k (input_keys items) && not (is_member k seen))
    unfolding create_rows is_member row_keys input_keys
    is_member-create_rows k seen id [] = refl
    is_member-create_rows k seen id (item ∷ items) =
        let key = batch_key u item.name in
        let same = is_member_same key k seen in
        elim (Bool-cases (is_member key seen)) [
          | inl e ↦ rw e (ground (arith, is_member-create_rows k seen id items, same))
          | inr e ↦ rw e (ground (arith, is_member-create_rows k (key ∷ seen) (id + 1) items, same))
        ]

    create_rows-HasDistinctNames :
        (seen : List Text) (id : Uuid) (items : List IngestionQueueItemInput)
        → HasDistinctNames (row_keys (create_rows u batch_id user seen id items).0)
    unfolding create_rows row_keys is_member
    create_rows-HasDistinctNames seen id [] = tt
    create_rows-HasDistinctNames seen id (item ∷ items) =
        let key = batch_key u item.name in
        elim (Bool-cases (is_member key seen)) [
          | inl e ↦ rw e (create_rows-HasDistinctNames seen id items)
          | inr e ↦ rw e (
            is_member-create_rows key (key ∷ seen) (id + 1) items
                ∙ ground (arith, (text_eq_iff key key).1 refl),
            create_rows-HasDistinctNames (key ∷ seen) (id + 1) items,
          )
        ]

    -- The rows that a batch adds to the queue have distinct names, up to case and outer blanks; every name
    -- of the batch is among theirs, and no other; and each item of the batch is either queued or skipped.
    pub create_rows_lem :
        (id : Uuid) (items : List IngestionQueueItemInput)
        → let (rows, skipped) = create_rows u batch_id user [] id items in
          HasDistinctNames (row_keys rows)
          × ((k : Text) → is_member k (row_keys rows) ≡ is_member k (input_keys items))
          × (length rows + length skipped ≡ length items)
    unfolding is_member
    create_rows_lem id items = (
      create_rows-HasDistinctNames [] id items,
      λ k. is_member-create_rows k [] id items ∙ ground arith,
      length-create_rows [] id items,
    )

module _ (locked : Uuid → Bool) where
  abbrev pub AreSkipped : List IngestionQueueItem → Type 0
  AreSkipped = All (λ row. is_claimable locked row ≡ false)

  -- The row that was claimed stood in the table as `taken`, behind rows that a claim passes over.
  pub record IsTaken (row : IngestionQueueItem) (before after : List IngestionQueueItem)
      : Type 0 where
    pub passed : List IngestionQueueItem
    pub taken : IngestionQueueItem
    pub later : List IngestionQueueItem
    pub table : before ≡ passed ++ (taken ∷ later)
    pub skipped : AreSkipped passed
    pub claimable : is_claimable locked taken ≡ true
    pub claimed : row ≡ record taken { status = running }
    pub updated : after ≡ passed ++ (row ∷ later)

  abbrev pub IsClaim :
      List IngestionQueueItem → Option IngestionQueueItem × List IngestionQueueItem → Type 0
  IsClaim before (none, after) = AreSkipped before × (after ≡ before)
  IsClaim before (some row, after) = IsTaken row before after

  cons-IsClaim :
      (row : IngestionQueueItem) (before : List IngestionQueueItem)
      (claim : Option IngestionQueueItem × List IngestionQueueItem)
      → is_claimable locked row ≡ false
      → IsClaim before claim
      → IsClaim (row ∷ before) (claim.0, row ∷ claim.1)
  cons-IsClaim row before (none, after) n h = ((n, h.0), ap (λ rows. row ∷ rows) h.1)
  cons-IsClaim row before (some x, after) n h = record {
    passed = row ∷ h.passed;
    taken = h.taken;
    later = h.later;
    table = ap (λ rows. row ∷ rows) h.table;
    skipped = (n, h.skipped);
    claimable = h.claimable;
    claimed = h.claimed;
    updated = ap (λ rows. row ∷ rows) h.updated;
  }

  -- A claim takes the oldest row that is queued and not locked: the row that it gives is that one with the
  -- status running, it takes that one's place in the table, and every other row stays as it was. It gives none
  -- exactly when each row is locked or not queued, and then the table is as it was.
  pub claim_next_queued_lem :
      (rows : List IngestionQueueItem) → IsClaim rows (claim_next_queued locked rows)
  unfolding claim_next_queued
  claim_next_queued_lem [] = (tt, refl)
  claim_next_queued_lem (row ∷ rows) = elim (Bool-cases (is_claimable locked row)) [
    | inl e ↦ rw e (record {
      passed = [];
      taken = row;
      later = rows;
      table = refl;
      skipped = tt;
      claimable = e;
      claimed = refl;
      updated = refl;
    })
    | inr e ↦
        rw e (cons-IsClaim row rows (claim_next_queued locked rows) e (claim_next_queued_lem rows))
  ]
