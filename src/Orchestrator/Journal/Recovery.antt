-- ===== src/Orchestrator/Journal/Recovery.antt =====
-- What `recover_journal_states` of crates/parqonaut-orchestrator/src/run.rs leaves in the journal, and
-- when `run_is_complete` holds.
use parqonaut.Prelude.{
  ℕ, ◌≡◌, refl, sym, subst, true, false, Option, none, some, String, List, [], ◌∷◌, arith, All, get,
  get-insert, string_eq, Bool-cases, Option-cases, ◌↔◌, inl, inr, ◌∙◌, str_eq, eq_iff,
}
use parqonaut.Orchestrator.State.{
  DatasetState, is_terminal, state_tag, dataset_state_eq, recover_after_crash, Settled,
  recover_after_crash-Settled,
}
use parqonaut.Orchestrator.Journal.{
  DatasetRunRecord, Journal, upsert_dataset, dataset_row, recover_row, recovered_row, recover_rows,
  recover_journal_states, row_is_terminal, run_is_complete,
}

-- Every row stands under its own dataset.
abbrev pub Keyed : Journal → Type 0
Keyed journal = All (λ (id, row). row.dataset_id ≡ id) journal

abbrev SettledRow : Option DatasetRunRecord → Type 0
SettledRow none = Unit
SettledRow (some row) = Settled row.state

dataset_state_eq_sound : (a b : DatasetState) → dataset_state_eq a b ≡ true → a ≡ b
unfolding dataset_state_eq state_tag
dataset_state_eq_sound a b h = ground arith

module _ (now : ℕ) (message : DatasetState → String) where
  -- A round on a row leaves its dataset with a settled row, if it had that row before.
  recover_row-here :
      (row : DatasetRunRecord) (id : String) (journal : Journal)
      → row.dataset_id ≡ id
      → get id journal ≡ some row
      → SettledRow (get id (recover_row now message row journal))
  unfolding recover_row upsert_dataset
  recover_row-here row id journal named there =
      elim (Bool-cases (dataset_state_eq (recover_after_crash row.state) row.state)) [
        | inl same ↦
            rw (same, there)
              (subst Settled (dataset_state_eq_sound _ row.state same)
                (recover_after_crash-Settled row.state).1)
        | inr differ ↦
            rw
              (
                differ,
                get-insert row.dataset_id id (recovered_row now message row) journal,
                (eq_iff row.dataset_id id).1 named,
              )
              ((recover_after_crash-Settled row.state).1)
      ]

  -- A round on another dataset's row leaves a dataset as it is.
  recover_row-other :
      (row : DatasetRunRecord) (id : String) (journal : Journal)
      → str_eq row.dataset_id id ≡ false
      → get id (recover_row now message row journal) ≡ get id journal
  unfolding recover_row upsert_dataset
  recover_row-other row id journal other =
      elim (Bool-cases (dataset_state_eq (recover_after_crash row.state) row.state)) [
        | inl same ↦ rw same
        | inr differ ↦
            rw (differ, get-insert row.dataset_id id (recovered_row now message row) journal, other)
      ]

  -- No round unsettles a dataset.
  recover_row-kept :
      (row : DatasetRunRecord) (id : String) (journal : Journal)
      → SettledRow (get id journal)
      → SettledRow (get id (recover_row now message row journal))
  unfolding recover_row upsert_dataset
  recover_row-kept row id journal h =
      elim (Bool-cases (dataset_state_eq (recover_after_crash row.state) row.state)) [
        | inl same ↦ rw same h
        | inr differ ↦ elim (Bool-cases (str_eq row.dataset_id id)) [
          | inl here ↦
              rw
                (differ, get-insert row.dataset_id id (recovered_row now message row) journal, here)
                ((recover_after_crash-Settled row.state).1)
          | inr other ↦
              rw
                (
                  differ,
                  get-insert row.dataset_id id (recovered_row now message row) journal,
                  other,
                )
                h
        ]
      ]

  recover_rows-kept :
      (rows : List (String × DatasetRunRecord)) (id : String) (journal : Journal)
      → SettledRow (get id journal)
      → SettledRow (get id (recover_rows now message rows journal))
  unfolding recover_rows
  recover_rows-kept [] id journal h = h
  recover_rows-kept ((k, row) ∷ rows) id journal h =
      recover_rows-kept rows id (recover_row now message row journal)
        (recover_row-kept row id journal h)

  recover_rows-Settled :
      (rows : List (String × DatasetRunRecord)) (id : String) (journal : Journal)
      → Keyed rows
      → get id rows ≡ get id journal
      → SettledRow (get id (recover_rows now message rows journal))
  unfolding recover_rows get
  recover_rows-Settled [] id journal keyed same = rw (← same) tt
  recover_rows-Settled ((k, row) ∷ rows) id journal (named, keyed) same =
      elim (Bool-cases (str_eq k id)) [
        | inl here ↦
            recover_rows-kept rows id (recover_row now message row journal) (
              recover_row-here row id journal (named ∙ (eq_iff k id).0 here)
                (sym (rw here at same)))
        | inr other ↦
            let e : get id (recover_row now message row journal) ≡ get id journal =
              recover_row-other row id journal (rw named other) in
            recover_rows-Settled rows id (recover_row now message row journal) keyed
              ((rw other at same) ∙ sym e)
      ]

  -- After a run has recovered its journal, every dataset's row is in a terminal state or in one that can
  -- be run: no row is left in the middle of an attempt.
  pub recover_journal_states-Settled :
      (journal : Journal) (id : String) (row : DatasetRunRecord)
      → Keyed journal
      → dataset_row id (recover_journal_states now message journal) ≡ some row
      → Settled row.state
  unfolding recover_journal_states dataset_row
  recover_journal_states-Settled journal id row keyed h =
      subst SettledRow h (recover_rows-Settled journal id journal keyed refl)

-- The dataset has a row in a terminal state.
abbrev pub HasEnded : Journal → String → Type 0
HasEnded journal id =
    (row : DatasetRunRecord) × (dataset_row id journal ≡ some row) × (is_terminal row.state ≡ true)

row_is_terminal-HasEnded :
    (journal : Journal) (id : String)
    → (row_is_terminal (dataset_row id journal) ≡ true) ↔ HasEnded journal id
unfolding row_is_terminal
row_is_terminal-HasEnded journal id = elim (Option-cases (dataset_row id journal)) [
  | inl none_there ↦ (λ h. absurd (ground arith), λ (row, e, t). absurd (ground arith))
  | inr (row, there) ↦ (λ h. (row, there, rw there at h), λ (other, e, t). ground arith)
]

-- A run counts as complete exactly when every dataset of its plan has a row in a terminal state, be it
-- a success, a failure or a cancellation.
pub run_is_complete-HasEnded :
    (datasets : List String) (journal : Journal)
    → (run_is_complete datasets journal ≡ true) ↔ All (HasEnded journal) datasets
unfolding run_is_complete
run_is_complete-HasEnded [] journal = (λ _. tt, λ _. refl)
run_is_complete-HasEnded (id ∷ ids) journal =
    let (one, one_back) = row_is_terminal-HasEnded journal id in
    let (rest, rest_back) = run_is_complete-HasEnded ids journal in
    elim (Bool-cases (row_is_terminal (dataset_row id journal))) [
      | inl ended ↦
          (λ h. (one ended, rest (rw ended at h)), λ (_, others). rw ended (rest_back others))
      | inr open_row ↦ (
        λ h. absurd (ground arith),
        λ (first, _). let ended = one_back first in absurd (ground arith),
      )
    ]
