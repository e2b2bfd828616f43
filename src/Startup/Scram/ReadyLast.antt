-- ===== src/Startup/Scram/ReadyLast.antt =====
-- The connection becomes ready at the very end of the startup in src/scram_verifier.rs.
use pywire.Base.{
  ◌≡◌, refl, sym, subst, Bool, true, false, ◌∷◌, arith, Text, Result-cases, Bool-cases, inl, inr,
}
use pywire.Scram.Exchange.{Exchange, verify}
use pywire.Auth.{from_pg}
use pywire.Step.{Post, imply_post, bind_post, bind_lift_post, ◌>>◌}
use pywire.Startup.Connection.{
  State, initial, server_first_sent, sasl_done, sasl, sasl_continue, sasl_final, PasswordMessage,
  Frontend, startup, password, other, Connection, World, send,
}
use pywire.Startup.Scram.{
  let_in, ScramVerifierConfig, initialize_python_session, start, open_if_configured, finish,
  take_state, on_password, on_startup, mechanisms, certificate,
}
use pywire.Startup.Scram.Authenticated.{start_post}
use pywire.Startup.Scram.Authenticated.Final.{opens, opens_not}

-- The connection `d` is ready only if `c` is, and its extension is that of `c`.
pub record StillWaits (c d : Connection) : Type 0 where
  pub installed : d.installed ≡ c.installed
  pub ready : d.ready ≡ true → c.ready ≡ true

abbrev pub SameResources : Connection → Unit {0} → Connection → Type 0
SameResources c _ d = d.installed ≡ c.installed

module _ (w : World) (config : ScramVerifierConfig) (has_factory : Bool) where
  let_in_waits :
      (out : Text) (c d : Connection)
      → StillWaits c d
      → Post (StillWaits c) (SameResources c) (let_in w config has_factory out d)
  unfolding let_in send finish
  let_in_waits out c d p = elim (Result-cases (w.send d.sent (sasl_final out))) [
    | inr (x, e) ↦ rw e (record { installed = p.installed; ready = p.ready })
    | inl (v, e) ↦ elim (Result-cases (w.finish_authentication (sasl_final out ∷ d.sent))) [
      | inr (x, f) ↦ rw (e, f) (record { installed = p.installed; ready = p.ready })
      | inl (v', f) ↦ rw (e, f) p.installed
    ]
  ]

  initialize_waits :
      (c d : Connection)
      → StillWaits c d
      → Post (StillWaits c) (λ (_ : Unit {0}) x. StillWaits c x) (initialize_python_session w d)
  unfolding initialize_python_session
  initialize_waits c d p = elim (Result-cases (w.open_session (from_pg d.login))) [
    | inr (x, e) ↦ rw e p
    | inl (i, e) ↦ rw e (record { installed = p.installed; ready = p.ready })
  ]

  open_waits :
      (c d : Connection)
      → StillWaits c d
      → Post
          (StillWaits c)
          (λ (_ : Unit {0}) x. StillWaits c x)
          (open_if_configured w config has_factory d)
  open_waits c d p = elim (Bool-cases has_factory) [
    | inl e ↦ rw (opens w config has_factory d e) (initialize_waits c d p)
    | inr e ↦ rw (opens_not w config has_factory d e) p
  ]

  final_waits :
      (message : PasswordMessage) (e : Exchange) (c d : Connection)
      → StillWaits c d
      → Post
          (StillWaits c)
          (SameResources c)
          (on_password w config has_factory message (server_first_sent e) d)
  unfolding on_password
  final_waits message e c d p =
      let I = StillWaits c in
      bind_lift_post I (SameResources c) message.into_sasl_response _ d p (λ response _.
        bind_lift_post I (SameResources c) (verify w.crypto e response)
          (λ out. open_if_configured w config has_factory >> let_in w config has_factory out) d p
          (λ out _.
            bind_post I (λ _ x. StillWaits c x) (SameResources c)
              (open_if_configured w config has_factory) (λ _. let_in w config has_factory out) d
              (open_waits c d p) (λ _ x q. let_in_waits out c x q)))

  send_waits :
      (e : Exchange) (c d : Connection)
      → StillWaits c d
      → Post
          (StillWaits c)
          (SameResources c)
          (send w (sasl_continue e.server_first) (record d { state = server_first_sent e }))
  unfolding send
  send_waits e c d p = elim (Result-cases (w.send d.sent (sasl_continue e.server_first))) [
    | inl (v, r) ↦ rw r p.installed
    | inr (x, r) ↦ rw r (record { installed = p.installed; ready = p.ready })
  ]

  first_waits :
      (message : PasswordMessage) (c d : Connection)
      → StillWaits c d
      → Post (StillWaits c) (SameResources c) (on_password w config has_factory message initial d)
  unfolding on_password
  first_waits message c d p =
      let I = StillWaits c in
      bind_lift_post I (SameResources c) message.into_sasl_initial_response _ d p (λ request _.
        bind_post I (λ e x. StillWaits c x) (SameResources c)
          (start w config has_factory request.0 request.1) _ d
          (imply_post (λ x. x ≡ d) I _ (λ e x. StillWaits c x)
            (start w config has_factory request.0 request.1 d)
            (start_post w config has_factory request.0 request.1 d) (λ x q. subst I (sym q) p)
            (λ e x q. subst I (sym (q.0)) p))
          (λ e x q. send_waits e c x q))

  password_waits :
      (message : PasswordMessage) (s : State) (c d : Connection)
      → StillWaits c d
      → Post (StillWaits c) (SameResources c) (on_password w config has_factory message s d)
  unfolding on_password
  password_waits message initial c d p = first_waits message c d p
  password_waits message (server_first_sent e) c d p = final_waits message e c d p
  password_waits message sasl_done c d p = p

  -- Of `ScramVerifierStartupHandler` alone, not of the handlers around or beside it: a message that it
  -- ends with an error leaves no connection ready that was not ready before, wherever the error comes
  -- from; and no message makes it change whether the resources are installed.
  pub on_startup-StillWaits :
      (m : Frontend) (c : Connection)
      → Post (StillWaits c) (SameResources c) (on_startup w config has_factory m c)
  unfolding on_startup take_state send
  on_startup-StillWaits (startup login) c = elim (Result-cases (w.protocol_negotiation login)) [
    | inr (x, e) ↦ rw e (record { installed = refl; ready = λ h. h })
    | inl (v, e) ↦
        let restarted : Connection = record c { login = login; ready = false } in
        let names = mechanisms w config has_factory (certificate w config has_factory restarted) in
        elim (Result-cases (w.send c.sent (sasl names))) [
          | inl (v', f) ↦ rw (e, f) refl
          | inr (x, f) ↦
              rw (e, f) (record { installed = refl; ready = λ h. absurd (ground (arith, h)) })
        ]
  ]
  on_startup-StillWaits (password message) c =
      password_waits message c.state c (record c { state = sasl_done })
        (record { installed = refl; ready = λ h. h })
  on_startup-StillWaits other c = refl
