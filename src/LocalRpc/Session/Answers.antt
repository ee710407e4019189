-- ===== src/LocalRpc/Session/Answers.antt =====
-- Every request that a session reads is answered once, is being handled, or its thread failed.
use next_infra.Base.{
  ℕ, ◌+◌, List, [], ◌∷◌, ◌++◌, Text, text_eq, Result, ok, if◌then◌else◌, ◌==◌, ◌≡◌, refl, sym, ap,
  ◌∙◌, subst, arith, inl, inr,
}
use next_infra.LocalRpc.Errors.{RpcError}
use next_infra.LocalRpc.Capabilities.{CapabilitySet}
use next_infra.LocalRpc.Messages.{RequestEnvelope, QueryRequest, ResponseEnvelope}
use next_infra.LocalRpc.Session.{
  Phase, handling, answered, Worker, Session, new_session, spawn, receive, handle_request, Runs,
  begins, receives, answers, ends, fails,
}
use next_infra.LocalRpc.Session.Laws.{receive-cases, response_to-id}

abbrev pub total : {A : Type 0} → (A → ℕ) → List A → ℕ
total weight [] = 0
total weight (x ∷ xs) = weight x + total weight xs

total-append :
    {A : Type 0} (weight : A → ℕ) (xs ys : List A)
    → total weight (xs ++ ys) ≡ total weight xs + total weight ys
total-append weight [] ys = omega arith
total-append weight (x ∷ xs) ys = omega (arith, total-append weight xs ys)

total-middle :
    {A : Type 0} (weight : A → ℕ) (before : List A) (x : A) (after : List A)
    → total weight (before ++ x ∷ after) ≡ weight x + total weight (before ++ after)
total-middle weight before x after =
    omega (arith, total-append weight before (x ∷ after), total-append weight before after)

-- Whether an identifier is the one counted.
abbrev pub hit : Text → Text → ℕ
hit request_id other = if other == request_id then 1 else 0

abbrev pub unanswered : Phase → ℕ → ℕ
unanswered handling n = n
unanswered answered n = 0

abbrev pub requested : Text → List RequestEnvelope → ℕ
requested request_id requests = total (λ r. hit request_id r.request_id) requests

abbrev pub responded : {R : Type 0} → Text → List (ResponseEnvelope R) → ℕ
responded request_id responses = total (λ r. hit request_id r.request_id) responses

-- Threads that have not answered yet.
abbrev pub pending : Text → List Worker → ℕ
pending request_id workers =
    total (λ w. unanswered w.phase (hit request_id w.request.request_id)) workers

removed-pending :
    (request_id : Text) (workers before : List Worker) (w : Worker) (after : List Worker)
    → workers ≡ before ++ w ∷ after
    → pending request_id workers
      ≡ unanswered w.phase (hit request_id w.request.request_id)
        + pending request_id (before ++ after)
removed-pending request_id workers before w after at =
    ap (pending request_id) at
    ∙ total-middle (λ v. unanswered v.phase (hit request_id v.request.request_id)) before w after

module _ {R : Type 0} (request_id : Text) where
  abbrev pub Balanced : List RequestEnvelope → List RequestEnvelope → Session R → Type 0
  Balanced read failed s =
      requested request_id read
      ≡ responded request_id s.sent + pending request_id s.workers + requested request_id failed

  receive-Balanced :
      (read failed : List RequestEnvelope) (s after : Session R) (request : RequestEnvelope)
      → receive s request ≡ ok after
      → Balanced read failed s
      → Balanced (request ∷ read) failed after
  unfolding spawn
  receive-Balanced read failed s after request h balanced = elim (receive-cases s after request h) [
    | inl (same, _, _) ↦
        subst (Balanced (request ∷ read) failed) (sym same) (omega (arith, balanced))
    | inr (response, id, same) ↦
        let hits = ap (hit request_id) id in
        subst (Balanced (request ∷ read) failed) (sym same) (omega (arith, balanced, hits))
  ]

  -- For every identifier, the requests that a new session has read under it are as many as the
  -- responses that it has sent under it, the threads that have not answered it yet and the requests
  -- whose thread failed, whatever the interleaving: no request is lost, and none is answered twice.
  pub Runs-Balanced :
      (handle : QueryRequest → Result RpcError R) (supported : CapabilitySet)
      {read failed : List RequestEnvelope} {s : Session R}
      → Runs handle (new_session supported) read failed s
      → requested request_id read
        ≡ responded request_id s.sent + pending request_id s.workers + requested request_id failed
  unfolding new_session handle_request
  Runs-Balanced handle supported begins = refl
  Runs-Balanced handle supported (receives {s = s} {after = after} run request h) =
      receive-Balanced _ _ s after request h (Runs-Balanced handle supported run)
  Runs-Balanced handle supported (answers {s = s} run before w after response at is_open made) =
      let balanced = Runs-Balanced handle supported run in
      let removed = removed-pending request_id s.workers before w after at in
      let opened = ap (λ p. unanswered p (hit request_id w.request.request_id)) is_open in
      let replaced =
        removed-pending request_id (before ++ record w { phase = answered } ∷ after) before
          (record w { phase = answered }) after refl in
      let id = response_to-id w.request.request_id (handle w.request.query) response made in
      let hits = ap (hit request_id) id in omega (arith, balanced, removed, opened, replaced, hits)
  Runs-Balanced handle supported (ends {s = s} run before w after at is_answered) =
      let balanced = Runs-Balanced handle supported run in
      let removed = removed-pending request_id s.workers before w after at in
      let opened = ap (λ p. unanswered p (hit request_id w.request.request_id)) is_answered in
      omega (arith, balanced, removed, opened)
  Runs-Balanced handle supported (fails {s = s} run before w after at is_open) =
      let balanced = Runs-Balanced handle supported run in
      let removed = removed-pending request_id s.workers before w after at in
      let opened = ap (λ p. unanswered p (hit request_id w.request.request_id)) is_open in
      omega (arith, balanced, removed, opened)
