-- ===== src/LocalRpc/Session/Client.antt =====
-- Which responses to its hello a client accepts.
use next_infra.Base.{
  Bool, Result, ok, ◌!=◌, text_eq, ◌≡◌, ◌↔◌, refl, sym, ap, ◌∙◌, arith, inl, inr, subst,
  Result-cases,
}
use next_infra.LocalRpc.Handshake.{
  ClientHello, HostHello, HandshakeResponse, accepted, rejected, negotiate,
}
use next_infra.LocalRpc.Handshake.Laws.{IsAgreed, agreed, negotiate-ok_iff}
use next_infra.LocalRpc.Session.{SessionError, accept_response}

module _ {T F : Type 0} where
  accept_response-IsAgreed :
      (client : ClientHello) (response : HandshakeResponse) (host : HostHello) (upgrade : Bool)
      → ◌≡◌ {A = Result (SessionError T F) (HostHello × Bool)}
          (accept_response client response)
          (ok (host, upgrade))
      → (response ≡ accepted host upgrade)
        × IsAgreed client host
        × (upgrade ≡ (client.release_id != host.release_id))
  unfolding accept_response
  accept_response-IsAgreed client (accepted host' upgrade') host upgrade h =
      elim (Result-cases (negotiate client host')) [
        | inl (result, made) ↦
            let (is_agreed, same) = (negotiate-ok_iff client host' result).0 made in
            let whole : (accepted host' upgrade' ≡ accepted host upgrade)
                × (host' ≡ host)
                × (upgrade' ≡ result.upgrade_recommended) =
              (ground arith, ground arith, ground arith) in
            (whole.0, subst (IsAgreed client) whole.1 is_agreed, ground (arith, whole, same))
        | inr (e, failed) ↦ absurd (ground arith)
      ]
  accept_response-IsAgreed client (rejected e) host upgrade h = absurd cc

  IsAgreed-accept_response :
      (client : ClientHello) (host : HostHello)
      → IsAgreed client host
      → ◌≡◌ {A = Result (SessionError T F) (HostHello × Bool)}
          (accept_response client (accepted host (client.release_id != host.release_id)))
          (ok (host, client.release_id != host.release_id))
  unfolding accept_response
  IsAgreed-accept_response client host is_agreed =
      let made = (negotiate-ok_iff client host (agreed client host)).1 (is_agreed, refl) in
      rw made (ground arith)

  -- A client accepts exactly the responses that accept it with a hello on which the two agree and
  -- that recommend an upgrade if the releases differ: it checks anew what the host has decided.
  pub accept_response-ok_iff :
      (client : ClientHello) (response : HandshakeResponse) (host : HostHello) (upgrade : Bool)
      → (◌≡◌ {A = Result (SessionError T F) (HostHello × Bool)}
          (accept_response client response)
          (ok (host, upgrade)))
        ↔ ((response ≡ accepted host upgrade)
            × IsAgreed client host
            × (upgrade ≡ (client.release_id != host.release_id)))
  accept_response-ok_iff client response host upgrade = (
    accept_response-IsAgreed client response host upgrade,
    λ h.
        let recommended = h.2 in
        ap (accept_response client) (h.0 ∙ ap (accepted host) recommended)
        ∙ IsAgreed-accept_response client host h.1
        ∙ ap (λ u. ok (host, u)) (sym recommended),
  )
