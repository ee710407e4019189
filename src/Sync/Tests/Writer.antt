-- ===== src/Sync/Tests/Writer.antt =====
-- The theorems of the writer queue at concrete inputs.
use next_infra.Base.{[], ◌∷◌, some, err, ◌≡◌, refl, true}
use next_infra.Sync.Writer.{WriterQueue, flush, submit}
use next_infra.Sync.Writer.Order.{Flushed, flush-Flushed}
use next_infra.Sync.Writer.Submit.{submit-blocked}
use next_infra.Sync.Tests.Fixture.{FakeStore, writer, store}
use next_infra.Sync.Tests.Builds.{built, built_interrupted}

abbrev refusing : FakeStore
refusing = record store { refuses = true }

abbrev two_pending : WriterQueue FakeStore
two_pending = record { store = store; pending = built ∷ built_interrupted ∷ [] }

abbrev stuck : WriterQueue FakeStore
stuck = record { store = refusing; pending = built_interrupted ∷ [] }

flush-Flushed_example :
    Flushed writer store
      (built ∷ built_interrupted ∷ [])
      (flush writer two_pending).0
      (flush writer two_pending).1
flush-Flushed_example = flush-Flushed writer two_pending

submit-blocked_example :
    submit writer stuck built
    ≡ (some (err 7), record { store = refusing; pending = built_interrupted ∷ built ∷ [] })
submit-blocked_example = submit-blocked writer stuck built_interrupted built [] 7 refl refl
