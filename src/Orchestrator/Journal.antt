-- ===== src/Orchestrator/Journal.antt =====
-- crates/parqonaut-orchestrator/src/journal: the journal of a run. The table `dataset_runs` is an
-- association list with one row for each dataset; SQLite, through which sqlite.rs reads and writes
-- it, is a parameter that is true or false for each write: whether the write succeeds.
pub mod Recovery
use parqonaut.Prelude.{
  ℕ, ◌≡◌, ◌≢◌, refl, Bool, true, false, Option, none, some, String, List, [], ◌∷◌, map, arith,
  if◌then◌else◌, all, not, Dict, get, insert, get-insert, string_eq, Bool-cases, inl, inr, ◌∙◌, sym,
  str_eq, eq_iff,
}
use parqonaut.Orchestrator.State.{
  DatasetState, FailureClass, is_terminal, dataset_state_eq, recover_after_crash,
}

pub record DatasetRunRecord : Type 0 where
  pub dataset_id : String
  pub output_path : String
  pub repair_plan_id : String
  pub policy_fingerprint : String
  pub state : DatasetState
  pub attempts : ℕ
  pub source_fingerprint : Option String
  pub output_fingerprint : Option String
  pub error_class : Option FailureClass
  pub error_message : Option String
  pub started_at : Option ℕ
  pub updated_at : ℕ
  pub completed_at : Option ℕ

abbrev pub Journal : Type 0
Journal = Dict String DatasetRunRecord

-- `INSERT … ON CONFLICT(run_id, dataset_id) DO UPDATE`.
unfoldable pub upsert_dataset : DatasetRunRecord → Journal → Journal
upsert_dataset row journal = insert row.dataset_id row journal

-- `dataset`.
unfoldable pub dataset_row : String → Journal → Option DatasetRunRecord
dataset_row id journal = get id journal

-- The message of `recover_journal_states` names the state that was found.
abbrev pub recovered_row : ℕ → (DatasetState → String) → DatasetRunRecord → DatasetRunRecord
recovered_row now message row = record row {
  state = recover_after_crash row.state;
  error_class = some FailureClass.recoverable;
  error_message = some (message row.state);
  updated_at = now;
}

-- One round of the loop of `recover_journal_states`, on a row as `list_datasets` listed it.
unfoldable pub recover_row : ℕ → (DatasetState → String) → DatasetRunRecord → Journal → Journal
unfolding upsert_dataset dataset_state_eq recover_after_crash
recover_row now message row journal =
    if dataset_state_eq (recover_after_crash row.state) row.state
    then journal
    else upsert_dataset (recovered_row now message row) journal

pub recover_rows :
    ℕ → (DatasetState → String) → List (String × DatasetRunRecord) → Journal → Journal
unfolding recover_row
recover_rows now message [] journal = journal
recover_rows now message ((id, row) ∷ rows) journal =
    recover_rows now message rows (recover_row now message row journal)

unfoldable pub recover_journal_states : ℕ → (DatasetState → String) → Journal → Journal
unfolding recover_rows
recover_journal_states now message journal = recover_rows now message journal journal

-- The terminal test of `run_is_complete` on a dataset's row.
unfoldable pub row_is_terminal : Option DatasetRunRecord → Bool
unfolding is_terminal
row_is_terminal none = false
row_is_terminal (some row) = is_terminal row.state

unfoldable pub run_is_complete : List String → Journal → Bool
unfolding dataset_row row_is_terminal
run_is_complete datasets journal = all (λ id. row_is_terminal (dataset_row id journal)) datasets

pub upsert_dataset-here :
    (row : DatasetRunRecord) (journal : Journal)
    → dataset_row row.dataset_id (upsert_dataset row journal) ≡ some row
unfolding upsert_dataset dataset_row
upsert_dataset-here row journal =
    get-insert row.dataset_id row.dataset_id row journal
    ∙ rw ((eq_iff row.dataset_id row.dataset_id).1 refl)

pub upsert_dataset-others :
    (row : DatasetRunRecord) (id : String) (journal : Journal)
    → id ≢ row.dataset_id
    → dataset_row id (upsert_dataset row journal) ≡ dataset_row id journal
unfolding upsert_dataset dataset_row
upsert_dataset-others row id journal differ = elim (Bool-cases (str_eq row.dataset_id id)) [
  | inl same ↦ absurd (differ (sym ((eq_iff row.dataset_id id).0 same)))
  | inr other ↦ get-insert row.dataset_id id row journal ∙ rw other
]
