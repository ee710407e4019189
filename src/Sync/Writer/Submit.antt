-- ===== src/Sync/Writer/Submit.antt =====
-- `submit` on an empty queue is one commit of the store; on a queue that a failure left behind it is
-- a retry of the oldest commit first.
use next_infra.Base.{
  List, [], ◌∷◌, ◌++◌, none, some, Result, ok, err, ◌≡◌, ◌≢◌, refl, arith, inl, inr, Result-cases,
}
use next_infra.Core.Ports.{SyncCommit, CommitResult, StoreWriter}
use next_infra.Sync.Writer.{WriterQueue, flush_from, submit, pop_last, last_result}

pop_last-snoc : {A : Type 0} (xs : List A) (x : A) → pop_last (xs ++ x ∷ []) ≡ some x
pop_last-snoc [] x = refl
pop_last-snoc (y ∷ []) x = refl
pop_last-snoc (y ∷ z ∷ xs) x = pop_last-snoc (z ∷ xs) x

-- What `submit` on an empty queue leaves pending: the commit, if the store refused it.
abbrev pub unsettled : {E : Type 0} → Result E CommitResult → SyncCommit → List SyncCommit
unsettled (ok result) c = []
unsettled (err error) c = c ∷ []

module _ {S E : Type 0} (writer : StoreWriter S E) where
  -- With a commit still pending the loop ends with an error or with at least one result.
  flush_from-ne-none :
      (s : S) (before : List SyncCommit) (c : SyncCommit) (rs : List CommitResult)
      → last_result (flush_from writer s (before ++ c ∷ []) rs).0 ≢ none
  unfolding flush_from
  flush_from-ne-none s [] c rs = elim (Result-cases (writer.commit_sync s c).0) [
    | inr (e, failed) ↦ rw (failed, flush_from) (λ h. cc h)
    | inl (r, done) ↦ rw (done, flush_from) (rw (pop_last-snoc rs r, last_result) (λ h. cc h))
  ]
  flush_from-ne-none s (b ∷ before) c rs = elim (Result-cases (writer.commit_sync s b).0) [
    | inr (e, failed) ↦ rw (failed, flush_from) (λ h. cc h)
    | inl (r, done) ↦
        rw (done, flush_from)
          (flush_from-ne-none (writer.commit_sync s b).1 before c (rs ++ r ∷ []))
  ]

  -- `submit` never reaches its `unreachable!`, whatever is pending.
  pub submit-ne-none : (queue : WriterQueue S) (c : SyncCommit) → (submit writer queue c).0 ≢ none
  unfolding submit
  submit-ne-none queue c = flush_from-ne-none queue.store queue.pending c []

  -- On an empty queue `submit` returns what the store answers to this commit, leaves the store as
  -- that call left it, and keeps the commit pending exactly when the store refused it.
  pub submit-empty :
      (queue : WriterQueue S) (c : SyncCommit)
      → queue.pending ≡ []
      → submit writer queue c ≡ (
        some (writer.commit_sync queue.store c).0,
        record {
          store = (writer.commit_sync queue.store c).1;
          pending = unsettled (writer.commit_sync queue.store c).0 c;
        },
      )
  unfolding submit
  submit-empty queue c empty = elim (Result-cases (writer.commit_sync queue.store c).0) [
    | inr (e, failed) ↦ ground arith
    | inl (r, done) ↦ ground arith
  ]

  -- While the oldest pending commit is refused, `submit` returns that commit's error for any other
  -- commit, which it only appends to the queue.
  pub submit-blocked :
      (queue : WriterQueue S) (oldest c : SyncCommit) (rest : List SyncCommit) (e : E)
      → queue.pending ≡ oldest ∷ rest
      → (writer.commit_sync queue.store oldest).0 ≡ err e
      → submit writer queue c ≡ (
        some (err e),
        record {
          store = (writer.commit_sync queue.store oldest).1;
          pending = (oldest ∷ rest) ++ c ∷ [];
        },
      )
  unfolding submit
  submit-blocked queue oldest c rest e waiting failed = ground arith
