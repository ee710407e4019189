-- ===== src/Binding/Service/Unique/Reachable.antt =====
-- Every mutation keeps live bindings unique, so any sequence of them does.
use next_infra.Base.{
  true, false, List, any, contains, Option, none, some, Text, text_eq, ok, ◌==◌, ◌≡◌, ◌≢◌, sym, ap,
  ◌∙◌, arith, subst, Bool-cases, Result-cases, inl, inr, ◌⊎◌,
}
use next_infra.Core.Ids.{BindingId, Timestamp}
use next_infra.Core.Status.{BindingStatus, binding_status_eq}
use next_infra.Core.Model.{Binding, binding_eq}
use next_infra.Core.Ports.{BindingStore}
use next_infra.Binding.Input.{BindingInput}
use next_infra.Core.Hashing.{Hashing}
use next_infra.Binding.Commit.Made.{binding_commit-Made}
use next_infra.Binding.Service.{is_duplicate, create, update}
use next_infra.Binding.Service.Mutations.{
  Mutation, mutate, Stored, SetOrKept, mutate-Refused, create-Stored, update-Stored,
  disable-SetOrKept, reconcile-SetOrKept,
}
use next_infra.Binding.Service.Unique.{
  Unique, Upserted, Fresh, upsert-Unique, some-injective, disabled-Fresh, status-Fresh,
  ensured-Fresh, StoreLaws,
}

module _ {S E : Type 0} (hashing : Hashing) (store : BindingStore S E)
    (laws : StoreLaws store) where
  abbrev pub IsUnique : S → Type 0
  IsUnique s = (bindings : List Binding) × (store.list_bindings s ≡ ok bindings) × Unique bindings

  Stored-IsUnique :
      (s after : S) (previous : Option Binding) (b : Binding) (at : Timestamp)
      (bindings : List Binding)
      → Stored hashing store s previous b at after
      → store.list_bindings s ≡ ok bindings
      → Unique bindings
      → Fresh bindings b
      → IsUnique after
  Stored-IsUnique s after previous b at bindings (c, made, (taken, after_is)) listed unique fresh =
      let (bindings', listed', upserted) = laws.upserts s c bindings taken listed in
      let same = (binding_commit-Made hashing previous b at c made).binding in
      subst IsUnique (sym after_is) (
        bindings',
        listed',
        upsert-Unique b bindings bindings' unique fresh
            (subst (λ x. Upserted x bindings bindings') same upserted),
      )

  SetOrKept-IsUnique :
      (s after : S) (old b : Binding) (at : Timestamp)
      → IsUnique s
      → (b.status ≡ BindingStatus.disabled) ⊎ (old.status ≢ BindingStatus.disabled)
      → ((bindings : List Binding)
          → store.list_bindings s ≡ ok bindings
          → contains bindings old ≡ true)
      → SetOrKept hashing store s old at b after
      → IsUnique after
  SetOrKept-IsUnique s after old b at u status in_list (inl (_, _, same)) =
      subst IsUnique (sym same) u
  SetOrKept-IsUnique s after old b at (bindings, listed, unique) status in_list
        (inr (_, b_is, stored)) =
      Stored-IsUnique s after (some old) b at bindings stored listed unique (elim status [
        | inl disabled ↦ disabled-Fresh bindings b disabled
        | inr live ↦
            subst (Fresh bindings) (sym b_is)
              (status-Fresh bindings old b.status at unique (in_list bindings listed) live)
      ])

  create-IsUnique :
      (s after : S) (input : BindingInput) (uuid : Text) (at : Timestamp) (b : Binding)
      → create hashing store s input uuid at ≡ (ok b, after)
      → IsUnique s
      → IsUnique after
  create-IsUnique s after input uuid at b h (bindings, listed, unique) =
      let (_, b_is, _, _, (bindings', listed', free), stored) =
        create-Stored hashing store s after input uuid at b h in
      let same : bindings' ≡ bindings = ground arith in
      Stored-IsUnique s after none b at bindings stored listed unique (
        ensured-Fresh bindings input none b
          (subst (λ bs. any (is_duplicate input none) bs ≡ false) same free)
          (λ id none_is. absurd cc) b_is.1 b_is.2 b_is.3)

  update-IsUnique :
      (s after : S) (binding_id : BindingId) (input : BindingInput) (at : Timestamp) (b : Binding)
      → update hashing store s binding_id input at ≡ (ok b, after)
      → IsUnique s
      → IsUnique after
  update-IsUnique s after binding_id input at b h (bindings, listed, unique) =
      let (old, read, _, b_is, _, disabled_stays, _, ensured, stored) =
        update-Stored hashing store s after binding_id input at b h in
      let found = laws.finds s binding_id old bindings read listed in
      Stored-IsUnique s after (some old) b at bindings stored listed unique
        (elim (Bool-cases (old.status == BindingStatus.disabled)) [
          | inl disabled ↦ disabled-Fresh bindings b (disabled_stays (ground arith))
          | inr live ↦
              let (bindings', listed', free) = ensured (ground arith) in
              let same : bindings' ≡ bindings = ground arith in
              ensured-Fresh bindings input (some binding_id) b
                (subst (λ bs. any (is_duplicate input (some binding_id)) bs ≡ false) same free)
                (λ id id_is. b_is.0 ∙ found.1 ∙ some-injective id_is) b_is.1 b_is.2 b_is.3
        ])

  ok-IsUnique :
      (s after : S) (m : Mutation) (at : Timestamp) (b : Binding)
      → mutate hashing store s m at ≡ (ok b, after)
      → IsUnique s
      → IsUnique after
  ok-IsUnique s after (Mutation.creation input uuid) at b h u =
      create-IsUnique s after input uuid at b h u
  ok-IsUnique s after (Mutation.change id input) at b h u =
      update-IsUnique s after id input at b h u
  ok-IsUnique s after (Mutation.disabling id) at b h u =
      let (old, read, disabled, sets) = disable-SetOrKept hashing store s after id at b h in
      SetOrKept-IsUnique s after old b at u (inl disabled)
        (λ bindings listed. (laws.finds s id old bindings read listed).0) sets
  ok-IsUnique s after (Mutation.reconciliation id) at b h u =
      let (old, read, follows, sets) = reconcile-SetOrKept hashing store s after id at b h in
      SetOrKept-IsUnique s after old b at u
        (elim follows [ inl (_, disabled) ↦ inl disabled | inr (live, _) ↦ inr live ])
        (λ bindings listed. (laws.finds s id old bindings read listed).0) sets

  -- If no two listed live bindings have the same endpoints and kind, then so it is after any mutation,
  -- whether it succeeds or fails.
  pub mutate-IsUnique :
      (s : S) (m : Mutation) (at : Timestamp)
      → IsUnique s
      → IsUnique (mutate hashing store s m at).1
  mutate-IsUnique s m at u = elim (Result-cases (mutate hashing store s m at).0) [
    | inl (b, done) ↦
        ok-IsUnique s (mutate hashing store s m at).1 m at b
          (ap (λ r. (r, (mutate hashing store s m at).1)) done) u
    | inr (e, failed) ↦ elim (mutate-Refused hashing store s m at e failed) [
      | inl same ↦ subst IsUnique (sym same) u
      | inr (c, e', refused, _, after_is) ↦
          subst IsUnique (sym after_is) (u.0, laws.refuses s c e' refused ∙ u.1, u.2)
    ]
  ]

  -- The stores that a sequence of mutations leads to.
  pub data Reaches (s : S) : S → Type 0 where
    here : Reaches s s
    then :
        {t : S} (m : Mutation) (at : Timestamp)
        → Reaches s t
        → Reaches s (mutate hashing store t m at).1

  -- Through any sequence of mutations, of which some may fail, no two listed live bindings come to
  -- have the same endpoints and kind.
  pub Reaches-IsUnique : {s t : S} → Reaches s t → IsUnique s → IsUnique t
  Reaches-IsUnique here u = u
  Reaches-IsUnique (then m at before) u = mutate-IsUnique _ m at (Reaches-IsUnique before u)
