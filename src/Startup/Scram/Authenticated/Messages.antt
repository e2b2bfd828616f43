-- ===== src/Startup/Scram/Authenticated/Messages.antt =====
-- Nobody gets past `ScramVerifierStartupHandler` of src/scram_verifier.rs without a proof.
use pywire.Base.{
  ◌≡◌, refl, sym, ap, ◌∙◌, [], Option, ok, subst, Bool, true, false, List, ◌∷◌, arith, String,
  Result-cases, inl, inr,
}
use pywire.Scram.Crypto.{Bytes}
use pywire.Scram.Exchange.{Exchange}
use pywire.Auth.{LoginInfo}
use pywire.Step.{Post, imply_post, bind_post, bind_lift_post, Ending, done, failed, panicked}
use pywire.Startup.Connection.{
  State, initial, server_first_sent, sasl_done, sasl, sasl_continue, PasswordMessage, Frontend,
  startup, password, other, Connection, World, send,
}
use pywire.Startup.Scram.{
  ScramVerifierConfig, certificate, start, take_state, mechanisms, on_password, on_startup,
}
use pywire.Startup.Scram.Authenticated.{
  WasSent, newest, earlier, saved, login_of, Inv, is_let_in, Answers, Started, Started-later,
  Authenticated, Authenticated-later, Authenticated-same, start_post,
}
use pywire.Startup.Scram.Authenticated.Final.{final_post}

module _ (w : World) (config : ScramVerifierConfig) (has_factory : Bool)
    (start_state : Connection) where
  abbrev I : List Frontend → Connection → Type 0
  I = Inv w config has_factory start_state

  abbrev R : List Frontend → Unit {0} → Connection → Type 0
  R heard _ d = I heard d

  abbrev Made : List Frontend → Exchange → Type 0
  Made = Started w config has_factory start_state

  -- A connection that waits for the final message.
  waiting-Inv :
      (heard : List Frontend) (c : Connection) (e : Exchange)
      → Made heard e
      → I heard c
      → I heard
          (record c { state = server_first_sent e; sent = sasl_continue e.server_first ∷ c.sent })
  waiting-Inv heard c e s inv = record {
    secure = inv.secure;
    login = inv.login;
    started = λ e' g. subst (Made heard) (injected g) s;
    told = λ e' g.
        subst
          (λ (x : Exchange).
            WasSent (sasl_continue x.server_first) (sasl_continue e.server_first ∷ c.sent))
          (injected g) (newest c.sent);
    authenticated = λ h.
        Authenticated-same w config has_factory start_state heard c _ (λ x m. earlier _ c.sent m)
          (λ _ o. o) (inv.authenticated h);
  }
    where
      injected : {e' : Exchange} → server_first_sent e ≡ server_first_sent e' → e ≡ e'
      injected g = ground (arith, g)

  -- Nothing changes but that a message was heard, and the state that was taken.
  taken-Inv :
      (heard : List Frontend) (message : PasswordMessage) (c : Connection)
      → I heard c
      → I (password message ∷ heard) (record c { state = sasl_done })
  taken-Inv heard message c inv = record {
    secure = inv.secure;
    login = inv.login;
    started = λ e h. absurd (ground arith);
    told = λ e h. absurd (ground arith);
    authenticated = λ h.
        Authenticated-same w config has_factory start_state (password message ∷ heard) c _
          (λ x m. m) (λ _ o. o)
          (Authenticated-later w config has_factory start_state (password message) heard c
            (inv.authenticated h));
  }

  answered :
      (heard : List Frontend) (message : PasswordMessage) (mechanism : String)
      (payload : Option Bytes) (c : Connection) (e : Exchange)
      → message.into_sasl_initial_response ≡ ok (mechanism, payload)
      → I (password message ∷ heard) c
      → Answers w config has_factory c.secure c.login mechanism payload e
      → Made (password message ∷ heard) e
  answered heard message mechanism payload c e reads inv a = record {
    newer = [];
    request = message;
    older = heard;
    heard_eq = refl;
    mechanism = mechanism;
    payload = payload;
    reads = reads;
    answers =
        subst (λ l. Answers w config has_factory start_state.secure l mechanism payload e) inv.login
          (subst (λ b. Answers w config has_factory b c.login mechanism payload e) inv.secure a);
  }

  first_post :
      (heard : List Frontend) (message : PasswordMessage) (c : Connection)
      → I (password message ∷ heard) c
      → Post
          (I (password message ∷ heard))
          (R (password message ∷ heard))
          (on_password w config has_factory message initial c)
  unfolding on_password send
  first_post heard message c inv =
      let J = I (password message ∷ heard) in
      let Q = R (password message ∷ heard) in
      bind_lift_post J Q message.into_sasl_initial_response _ c inv (λ request reads.
        let P = λ (e : Exchange) (d : Connection).
          (d ≡ c) × Answers w config has_factory c.secure c.login request.0 request.1 e in
        bind_post J P Q (start w config has_factory request.0 request.1) _ c
          (imply_post (λ d. d ≡ c) J _ P (start w config has_factory request.0 request.1 c)
            (start_post w config has_factory request.0 request.1 c) (λ d q. subst J (sym q) inv)
            (λ e d p. p))
          (λ e d p.
            sent_first e d (subst J (sym p.0) inv)
              (answered heard message request.0 request.1 c e reads inv p.1)))
    where
      sent_first :
          (e : Exchange) (d : Connection)
          → I (password message ∷ heard) d
          → Made (password message ∷ heard) e
          → Post
              (I (password message ∷ heard))
              (R (password message ∷ heard))
              (send w (sasl_continue e.server_first) (record d { state = server_first_sent e }))
      sent_first e d inv' s =
          let waiting = waiting-Inv (password message ∷ heard) d e s inv' in
          elim (Result-cases (w.send d.sent (sasl_continue e.server_first))) [
            | inl (v, r) ↦ rw r waiting
            | inr (x, r) ↦ rw r waiting
          ]

  on_password_post :
      (heard : List Frontend) (message : PasswordMessage) (c : Connection) (s : State)
      → c.state ≡ s
      → I heard c
      → Post
          (I (password message ∷ heard))
          (R (password message ∷ heard))
          (on_password w config has_factory message s (record c { state = sasl_done }))
  unfolding on_password
  on_password_post heard message c s g inv =
      let taken : I (password message ∷ heard) (record c { state = sasl_done }) =
        taken-Inv heard message c inv in
      elim s
          as (λ s.
            c.state ≡ s
            → Post (I (password message ∷ heard)) (R (password message ∷ heard))
                (on_password w config has_factory message s (record c { state = sasl_done }))) [
                  | initial ↦ λ g. first_post heard message (record c { state = sasl_done }) taken
                  | server_first_sent e ↦ λ g.
                      final_post w config has_factory start_state heard message e
                        (record c { state = sasl_done }) refl (inv.started e g) (inv.told e g) taken
                  | sasl_done ↦ λ g. taken
                ]
        g

  -- A message that leaves the connection as it is.
  ignored-Inv :
      (heard : List Frontend) (m : Frontend) (c : Connection)
      → login_of w config has_factory start_state.login (m ∷ heard)
        ≡ login_of w config has_factory start_state.login heard
      → I heard c
      → I (m ∷ heard) c
  ignored-Inv heard m c q inv = record {
    secure = inv.secure;
    login = inv.login ∙ sym q;
    started = λ e g. Started-later w config has_factory start_state m heard e (inv.started e g);
    told = inv.told;
    authenticated =
        λ h. Authenticated-later w config has_factory start_state m heard c (inv.authenticated h);
  }

  announced-Inv :
      (heard : List Frontend) (login : LoginInfo) (names : List String) (c : Connection)
      → login_of w config has_factory start_state.login (startup login ∷ heard) ≡ login
      → I heard c
      → I
          (startup login ∷ heard)
          (record c { login = login; ready = false; sent = sasl names ∷ c.sent })
  announced-Inv heard login names c q inv = record {
    secure = inv.secure;
    login = sym q;
    started = λ e g.
        Started-later w config has_factory start_state (startup login) heard e (inv.started e g);
    told = λ e g. earlier _ c.sent (inv.told e g);
    authenticated = λ h.
        Authenticated-same w config has_factory start_state (startup login ∷ heard) c _
          (λ x m. earlier _ c.sent m) (λ _ o. o)
          (Authenticated-later w config has_factory start_state (startup login) heard c
            (inv.authenticated (ground (arith, h))));
  }

  pub on_startup_post :
      (heard : List Frontend) (m : Frontend) (c : Connection)
      → I heard c
      → Post (I (m ∷ heard)) (R (m ∷ heard)) (on_startup w config has_factory m c)
  unfolding on_startup take_state send
  on_startup_post heard (startup login) c inv =
      let old = login_of w config has_factory start_state.login heard in
      elim (Result-cases (w.protocol_negotiation login)) [
        | inr (x, e) ↦
            let kept =
              ignored-Inv heard (startup login) c
                (ap (λ r. saved w config has_factory r login old) e) inv in
            rw e kept
        | inl (v, e) ↦
            let restarted : Connection = record c { login = login; ready = false } in
            let names =
              mechanisms w config has_factory (certificate w config has_factory restarted) in
            let announced =
              announced-Inv heard login names c (ap (λ r. saved w config has_factory r login old) e)
                inv in
            elim (Result-cases (w.send c.sent (sasl names))) [
              | inl (v', f) ↦ rw (e, f) announced
              | inr (x, f) ↦ rw (e, f) announced
            ]
      ]
  on_startup_post heard (password message) c inv = on_password_post heard message c c.state refl inv
  on_startup_post heard other c inv = ignored-Inv heard other c refl inv

  pub Post-Inv :
      (heard : List Frontend) (x : Ending (Unit {0}) × Connection)
      → Post (I heard) (R heard) x
      → I heard x.1
  Post-Inv heard (done a, c) h = h
  Post-Inv heard (failed e, c) h = h
  Post-Inv heard (panicked, c) h = absurd h

  pub connected-Inv : start_state.state ≡ initial → is_let_in start_state ≡ false → I [] start_state
  connected-Inv e h = record {
    secure = refl;
    login = refl;
    started = λ x g. absurd (ground (arith, e));
    told = λ x g. absurd (ground (arith, e));
    authenticated = λ g. absurd (ground (arith, h));
  }

  -- The states that a connection gets to from where it started, with the messages that it got, the
  -- newest first.
  pub data Reached : List Frontend → Connection → Type 0 where
    connected : Reached [] start_state
    received :
        (heard : List Frontend) (c : Connection) (m : Frontend)
        → Reached heard c
        → Reached (m ∷ heard) (on_startup w config has_factory m c).1

  Reached-Inv :
      start_state.state ≡ initial
      → is_let_in start_state ≡ false
      → (heard : List Frontend) (c : Connection) → Reached heard c
      → I heard c
  Reached-Inv e h _ _ connected = connected-Inv e h
  Reached-Inv e h _ _ (received heard c m p) =
      Post-Inv (m ∷ heard) (on_startup w config has_factory m c)
        (on_startup_post heard m c (Reached-Inv e h heard c p))

  -- A connection that starts in the initial state and not let in, and that pgwire then made ready,
  -- that was registered for cancel requests or that was sent the server's final message, by whatever
  -- messages it got there and however the source, the session factory and the sink answered, has
  -- proved the key. One of its messages was a client-first-message that the parser accepts and the
  -- negotiation of channel binding allows on this connection; the exchange was made of the parts of
  -- that message as RFC 5802 says, with this server's random text behind the client's nonce, and of
  -- the verifier that the source gave for the login of that time, not of the mock; its
  -- server-first-message was sent; a later message holds the echoes and the proof that verify against
  -- it; and if there is a session factory, the session is open.
  pub Reached-Authenticated :
      (heard : List Frontend) (c : Connection)
      → start_state.state ≡ initial
      → is_let_in start_state ≡ false
      → Reached heard c
      → is_let_in c ≡ true
      → Authenticated w config has_factory start_state heard c
  Reached-Authenticated heard c e n p h = (Reached-Inv e n heard c p).authenticated h
