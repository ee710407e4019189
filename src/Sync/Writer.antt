-- ===== src/Sync/Writer.antt =====
-- crates/next-infra-sync/src/writer.rs: the FIFO queue of commits in front of the store.
pub mod Order
pub mod Submit
use next_infra.Base.{List, [], ◌∷◌, ◌++◌, ℕ, length, Option, none, some, Result, ok, err}
use next_infra.Core.Ports.{SyncCommit, CommitResult, StoreWriter}

pub record WriterQueue (S : Type 0) : Type 0 where
  pub store : S
  pub pending : List SyncCommit

unfoldable pub new_queue : {S : Type 0} → S → WriterQueue S
new_queue store = record { store = store; pending = [] }

unfoldable pub pending_len : {S : Type 0} → WriterQueue S → ℕ
pending_len queue = length queue.pending

unfoldable pub enqueue : {S : Type 0} → WriterQueue S → SyncCommit → WriterQueue S
enqueue queue commit = record queue { pending = queue.pending ++ commit ∷ [] }

-- `Vec::pop`
abbrev pub pop_last : {A : Type 0} → List A → Option A
pop_last [] = none
pop_last (x ∷ []) = some x
pop_last (x ∷ y ∷ xs) = pop_last (y ∷ xs)

abbrev last_result : {E : Type 0} → Result E (List CommitResult) → Option (Result E CommitResult)
last_result (err error) = some (err error)
last_result (ok results) = elim (pop_last results) [ none ↦ none | some r ↦ some (ok r) ]

module _ {S E : Type 0} (writer : StoreWriter S E) where
  -- The loop of `flush`, with the results so far.
  flush_from :
      S → List SyncCommit → List CommitResult → Result E (List CommitResult) × WriterQueue S
  flush_from store [] results = (ok results, record { store = store; pending = [] })
  flush_from store (commit ∷ rest) results =
      let (committed, store') = writer.commit_sync store commit in
      elim committed [
        | ok result ↦ flush_from store' rest (results ++ result ∷ [])
        | err error ↦ (err error, record { store = store'; pending = commit ∷ rest })
      ]

  unfoldable pub flush : WriterQueue S → Result E (List CommitResult) × WriterQueue S
  unfolding flush_from
  flush queue = flush_from queue.store queue.pending []

  -- `none` is the panic of `unreachable!`.
  unfoldable pub submit :
      WriterQueue S → SyncCommit → Option (Result E CommitResult) × WriterQueue S
  unfolding enqueue flush
  submit queue commit =
      let (flushed, queue') = flush (enqueue queue commit) in (last_result flushed, queue')
