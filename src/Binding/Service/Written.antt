-- ===== src/Binding/Service/Written.antt =====
-- What a planned mutation writes, and that it leaves the store alone where it fails.
use next_infra.Base.{
  Option, none, some, text_eq, ok, err, ◌≡◌, refl, arith, Result-cases, inl, inr, ◌⊎◌,
}
use next_infra.Core.Status.{lifecycle_eq, binding_status_eq}
use next_infra.Core.Model.{Binding, binding_eq}
use next_infra.Core.Ports.{BindingCommit, BindingStore}
use next_infra.Binding.Input.{BindingError, store_error}
use next_infra.Binding.Service.{Plan, write}

module _ {S E : Type 0} (store : BindingStore S E) where
  -- The store took this commit and is now `after`.
  abbrev pub Commits : S → BindingCommit → S → Type 0
  Commits s c after =
      ((store.commit_binding s c).0 ≡ ok tt) × (after ≡ (store.commit_binding s c).1)

  abbrev pub Wrote : S → Option BindingCommit → S → Type 0
  Wrote s none after = after ≡ s
  Wrote s (some c) after = Commits s c after

  -- A write that answers a binding carried out the whole plan.
  pub write-Wrote :
      (s after : S) (p : Plan E) (b : Binding)
      → write store s p ≡ (ok b, after)
      → (written : Option BindingCommit) × (p ≡ ok (b, written)) × Wrote s written after
  unfolding write
  write-Wrote s after (err e) b h = absurd (ground arith)
  write-Wrote s after (ok (binding, none)) b h = (none, ground arith, ground arith)
  write-Wrote s after (ok (binding, some c)) b h =
      elim (Result-cases (store.commit_binding s c).0) [
        | inl (_, done) ↦ (some c, ground arith, (ground arith, ground arith))
        | inr (e, failed) ↦ absurd (ground arith)
      ]

  -- A commit that the store refused with this error.
  abbrev pub Refused : S → BindingError E → S → Type 0
  Refused s e after =
      (c : BindingCommit) × (e' : E) × ((store.commit_binding s c).0 ≡ err e')
      × (e ≡ store_error e')
      × (after ≡ (store.commit_binding s c).1)

  pub write-Refused :
      (s : S) (p : Plan E) (e : BindingError E)
      → (write store s p).0 ≡ err e
      → ((write store s p).1 ≡ s) ⊎ Refused s e (write store s p).1
  unfolding write
  write-Refused s (err e') e h = inl refl
  write-Refused s (ok (binding, none)) e h = inl refl
  write-Refused s (ok (binding, some c)) e h = elim (Result-cases (store.commit_binding s c).0) [
    | inl (_, done) ↦ absurd (ground arith)
    | inr (e', failed) ↦ inr (c, e', failed, ground arith, refl)
  ]
