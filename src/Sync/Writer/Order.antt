-- ===== src/Sync/Writer/Order.antt =====
-- The writer queue commits in insertion order, one by one, and keeps what it could not commit.
use mathlib.Core.List.{append_assoc, append-nil}
use next_infra.Base.{List, [], ◌∷◌, ◌++◌, Result, ok, err, ◌≡◌, refl, sym, inl, inr, Result-cases}
use next_infra.Core.Ports.{SyncCommit, CommitResult, StoreWriter}
use next_infra.Sync.Writer.{WriterQueue, flush_from, flush}

module _ {S E : Type 0} (writer : StoreWriter S E) where
  -- The store takes the commits one after another, and each succeeds with its result.
  pub data Commits : S → List SyncCommit → List CommitResult → S → Type 0 where
    done : {s : S} → Commits s [] [] s
    next :
        {s t : S} {c : SyncCommit} {cs : List SyncCommit} {r : CommitResult}
        {rs : List CommitResult}
        → (writer.commit_sync s c).0 ≡ ok r
        → Commits (writer.commit_sync s c).1 cs rs t
        → Commits s (c ∷ cs) (r ∷ rs) t

  -- What draining `all` from the store `s` may come to.
  pub data Flushed (s : S) (all : List SyncCommit)
      : Result E (List CommitResult) → WriterQueue S → Type 0 where
    drained :
        {rs : List CommitResult} {t : S}
        → Commits s all rs t
        → Flushed s all (ok rs) (record { store = t; pending = [] })
    stopped :
        {rs : List CommitResult} {t : S} {e : E} (before : List SyncCommit) (c : SyncCommit)
        (rest : List SyncCommit)
        → all ≡ before ++ c ∷ rest
        → Commits s before rs t
        → (writer.commit_sync t c).0 ≡ err e
        → Flushed s all (err e) (record { store = (writer.commit_sync t c).1; pending = c ∷ rest })

  Commits-snoc :
      {s t : S} {cs : List SyncCommit} {rs : List CommitResult} (c : SyncCommit) (r : CommitResult)
      → Commits s cs rs t
      → (writer.commit_sync t c).0 ≡ ok r
      → Commits s (cs ++ c ∷ []) (rs ++ r ∷ []) (writer.commit_sync t c).1
  Commits-snoc c r done h = next h done
  Commits-snoc c r (next e more) h = next e (Commits-snoc c r more h)

  flush_from-Flushed :
      (s t : S) (before rest : List SyncCommit) (rs : List CommitResult)
      → Commits s before rs t
      → Flushed s (before ++ rest) (flush_from writer t rest rs).0 (flush_from writer t rest rs).1
  unfolding flush_from
  flush_from-Flushed s t before [] rs h = drained (rw append-nil h)
  flush_from-Flushed s t before (c ∷ rest) rs h = elim (Result-cases (writer.commit_sync t c).0) [
    | inr (e, failed) ↦ rw (failed, flush_from) (stopped before c rest refl h failed)
    | inl (r, ok') ↦
        rw (ok', flush_from)
          (rw (sym (append_assoc before (c ∷ []) rest)) (
            flush_from-Flushed s (writer.commit_sync t c).1 (before ++ c ∷ []) rest (rs ++ r ∷ [])
              (Commits-snoc c r h ok')))
  ]

  -- Flushing commits the pending commits in FIFO order. It drains the queue, with a result for each
  -- commit; or a commit fails, those before it are committed, and it stays at the head of the queue
  -- with all that follow it.
  pub flush-Flushed :
      (queue : WriterQueue S)
      → Flushed queue.store queue.pending (flush writer queue).0 (flush writer queue).1
  unfolding flush
  flush-Flushed queue = flush_from-Flushed queue.store queue.store [] queue.pending [] done
