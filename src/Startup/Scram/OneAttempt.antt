-- ===== src/Startup/Scram/OneAttempt.antt =====
-- A connection gets one attempt: `take_state` in src/scram_verifier.rs.
use pywire.Base.{
  List, [], ◌≡◌, refl, sym, ap, ◌∙◌, Bool, true, false, ◌∷◌, arith, Text, Result, Result-cases, inl,
  inr, if◌then◌else◌,
}
use pywire.Error.PgWire.{invalid_sasl_state}
use pywire.Query.Response.{Py}
use pywire.Scram.Exchange.{Exchange, verify}
use pywire.Auth.{from_pg}
use pywire.Step.{Ending, done, failed, panicked, pure, ◌>>◌, Post, bind_post, bind_lift_post}
use pywire.Startup.Connection.{
  server_first_sent, sasl_done, sasl_final, PasswordMessage, Frontend, startup, password, other,
  Connection, World, send,
}
use pywire.Startup.Scram.{
  ScramVerifierConfig, initialize_python_session, open_if_configured, let_in, finish, take_state,
  on_password, on_startup,
}

module _ (w : World) (config : ScramVerifierConfig) (has_factory : Bool) where
  abbrev Spent : Connection → Type 0
  Spent c = c.state ≡ sasl_done

  let_in_post :
      (out : Text) (c : Connection)
      → Spent c
      → Post Spent (λ (_ : Unit {0}) d. Spent d) (let_in w config has_factory out c)
  unfolding let_in send finish
  let_in_post out c h = elim (Result-cases (w.send c.sent (sasl_final out))) [
    | inr (x, e) ↦ rw e h
    | inl (v, e) ↦ elim (Result-cases (w.finish_authentication (sasl_final out ∷ c.sent))) [
      | inr (x, f) ↦ rw (e, f) h
      | inl (v', f) ↦ rw (e, f) h
    ]
  ]

  open_post :
      (c : Connection)
      → Spent c
      → Post Spent (λ (_ : Unit {0}) d. Spent d) (open_if_configured w config has_factory c)
  unfolding open_if_configured initialize_python_session
  open_post c h = by_factory has_factory
    where
      opened :
          (r : Result _ Py)
          → r ≡ w.open_session (from_pg c.login)
          → Post Spent (λ (_ : Unit {0}) d. Spent d) (initialize_python_session w c)
      opened r e = elim (Result-cases (w.open_session (from_pg c.login))) [
        | inl (v, f) ↦ rw f h
        | inr (x, f) ↦ rw f h
      ]

      by_factory :
          (b : Bool)
          → Post Spent
              (λ (_ : Unit {0}) d. Spent d)
              ((if b then initialize_python_session w else pure tt) c)
      by_factory true = opened (w.open_session (from_pg c.login)) refl
      by_factory false = h

  final_post :
      (message : PasswordMessage) (e : Exchange) (c : Connection)
      → Spent c
      → Post Spent
          (λ (_ : Unit {0}) d. Spent d)
          (on_password w config has_factory message (server_first_sent e) c)
  unfolding on_password
  final_post message e c h =
      let R = λ (_ : Unit {0}) (d : Connection). Spent d in
      bind_lift_post Spent R message.into_sasl_response _ c h (λ response _.
        bind_lift_post Spent R (verify w.crypto e response)
          (λ out. open_if_configured w config has_factory >> let_in w config has_factory out) c h
          (λ out _.
            bind_post Spent R R (open_if_configured w config has_factory)
              (λ _. let_in w config has_factory out) c (open_post c h)
              (λ _ d g. let_in_post out d g)))

  Post-Spent :
      (x : Ending (Unit {0}) × Connection) → Post Spent (λ (_ : Unit {0}) d. Spent d) x → Spent x.1
  Post-Spent (done a, c) h = h
  Post-Spent (failed e, c) h = h
  Post-Spent (panicked, c) h = absurd h

  -- The state behind a sequence of messages, whatever each of them ends in.
  unfoldable pub served : List Frontend → Connection → Connection
  unfolding on_startup
  served [] c = c
  served (m ∷ ms) c = served ms (on_startup w config has_factory m c).1

  -- While the server waits for the final message, the next message of the password family uses the
  -- exchange up, whatever it holds and however the rest ends.
  pub final-spends :
      (message : PasswordMessage) (e : Exchange) (c : Connection)
      → c.state ≡ server_first_sent e
      → (on_startup w config has_factory (password message) c).1.state ≡ sasl_done
  unfolding on_startup take_state
  final-spends message e c h = rw h (
      Post-Spent
        (on_password w config has_factory message (server_first_sent e)
          (record c { state = sasl_done }))
        (final_post message e (record c { state = sasl_done }) refl))

  -- A used-up exchange stays used up under every message, and a message of the password family then
  -- ends in `InvalidSASLState` and changes nothing.
  pub spent-stays :
      (c : Connection) (m : Frontend)
      → c.state ≡ sasl_done
      → ((on_startup w config has_factory m c).1.state ≡ sasl_done)
        × ((message : PasswordMessage)
            → on_startup w config has_factory (password message) c ≡ (failed invalid_sasl_state, c))
  unfolding on_startup take_state on_password send
  spent-stays c m h = (stays m, λ message. rejected message)
    where
      rejected :
          (message : PasswordMessage)
          → on_startup w config has_factory (password message) c ≡ (failed invalid_sasl_state, c)
      rejected message =
          ap (λ s. on_password w config has_factory message s (record c { state = sasl_done })) h
          ∙ ap (λ s. (failed invalid_sasl_state, record c { state = s })) (sym h)

      stays : (m : Frontend) → (on_startup w config has_factory m c).1.state ≡ sasl_done
      stays (startup login) = elim (Result-cases (w.protocol_negotiation login)) [
        | inr (x, e) ↦ rw e h
        | inl (v, e) ↦ rw e (ground (arith, h))
      ]
      stays (password message) = ap (λ x. x.1.state) (rejected message) ∙ h
      stays other = h

  served-Spent : (ms : List Frontend) (c : Connection) → Spent c → Spent (served ms c)
  unfolding served
  served-Spent [] c h = h
  served-Spent (m ∷ ms) c h =
      served-Spent ms (on_startup w config has_factory m c).1 (spent-stays c m h).0

  -- While the server waits for the final message, the next message of the password family is the only
  -- attempt: whatever it holds and however it ends, and whatever messages follow, every later message
  -- of that family is refused with `InvalidSASLState` and changes nothing.
  pub served-refuses :
      (message : PasswordMessage) (e : Exchange) (c : Connection) (later : List Frontend)
      (again : PasswordMessage)
      → c.state ≡ server_first_sent e
      → on_startup w config has_factory (password again) (served (password message ∷ later) c)
        ≡ (failed invalid_sasl_state, served (password message ∷ later) c)
  unfolding served
  served-refuses message e c later again h =
      let spent =
        served-Spent later (on_startup w config has_factory (password message) c).1
          (final-spends message e c h) in
      (spent-stays _ (password again) spent).1 again
