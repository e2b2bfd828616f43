-- ===== src/Startup/Scram/Authenticated/Final.antt =====
-- The final message in src/scram_verifier.rs: it has to prove the key before anything else happens.
use pywire.Base.{
  ◌≡◌, refl, sym, subst, ap, List, [], ◌∙◌, Bool, true, false, some, ◌∷◌, arith, List, Text,
  if◌then◌else◌, Result-cases, Bool-cases, inl, inr,
}
use pywire.Query.Response.{Py}
use pywire.Scram.ClientFirst.{is_some}
use pywire.Scram.Exchange.{Exchange, verify}
use pywire.Scram.Exchange.Sound.{verify-Proves}
use pywire.Auth.{from_pg}
use pywire.Step.{pure, Post, bind_post, bind_lift_post, ◌>>◌, done}
use pywire.Startup.Connection.{
  server_first_sent, sasl_done, sasl_continue, sasl_final, PasswordMessage, Frontend, password,
  Connection, World, send,
}
use pywire.Startup.Scram.{
  let_in, ScramVerifierConfig, initialize_python_session, open_if_configured, finish, on_password,
}
use pywire.Startup.Scram.Authenticated.{
  WasSent, earlier, Inv, Started, Authenticated, Authenticated-same,
}

module _ (w : World) (config : ScramVerifierConfig) (has_factory : Bool) where
  pub opens :
      (c : Connection)
      → has_factory ≡ true
      → open_if_configured w config has_factory c ≡ initialize_python_session w c
  unfolding open_if_configured
  opens c e = ap (λ b. (if b then initialize_python_session w else pure tt) c) e

  pub opens_not :
      (c : Connection)
      → has_factory ≡ false
      → open_if_configured w config has_factory c ≡ (done tt, c)
  unfolding open_if_configured
  opens_not c e = ap (λ b. (if b then initialize_python_session w else pure tt) c) e

module _ (w : World) (config : ScramVerifierConfig) (has_factory : Bool) (start : Connection)
    (heard : List Frontend) where
  abbrev I : Connection → Type 0
  I = Inv w config has_factory start heard

  abbrev A : Connection → Type 0
  A = Authenticated w config has_factory start heard

  abbrev NotWaiting : Connection → Type 0
  NotWaiting c = c.state ≡ sasl_done

  let_in-Inv :
      (c d : Connection)
      → d.state ≡ sasl_done
      → d.secure ≡ c.secure
      → d.login ≡ c.login
      → I c
      → A d
      → I d
  let_in-Inv c d h q r inv a = record {
    secure = q ∙ inv.secure;
    login = r ∙ inv.login;
    started = λ e g. absurd (ground arith);
    told = λ e g. absurd (ground arith);
    authenticated = λ _. a;
  }

  let_in_post :
      (server_final : Text) (c : Connection)
      → NotWaiting c
      → I c
      → A c
      → Post I (λ (_ : Unit {0}) d. I d) (let_in w config has_factory server_final c)
  unfolding let_in send finish
  let_in_post server_final c h inv a =
      let told : Connection = record c { sent = sasl_final server_final ∷ c.sent } in
      let behind = λ (d : Connection) (q : d.sent ≡ told.sent) (r : d.session_ref ≡ c.session_ref).
        Authenticated-same w config has_factory start heard c d
          (λ x m. subst (WasSent x) (sym q) (earlier _ c.sent m)) (λ _ o. ap is_some r ∙ o) a in
      elim (Result-cases (w.send c.sent (sasl_final server_final))) [
        | inr (x, e) ↦ rw e (let_in-Inv c told h refl refl inv (behind told refl refl))
        | inl (v, e) ↦
            let registered : Connection = record told { registered = true } in
            elim (Result-cases (w.finish_authentication told.sent)) [
              | inr (x, f) ↦
                  rw (e, f) (let_in-Inv c registered h refl refl inv (behind registered refl refl))
              | inl (v', f) ↦
                  let ready : Connection = record registered { ready = true } in
                  rw (e, f) (let_in-Inv c ready h refl refl inv (behind ready refl refl))
            ]
      ]

  -- With the session open, and nothing else changed but that.
  abbrev Opened : Connection → Connection → Type 0
  Opened c d =
      (d.state ≡ c.state)
      × (d.sent ≡ c.sent)
      × (has_factory ≡ true → is_some d.session_ref ≡ true)
      × I d

  pub opened-Inv :
      (c : Connection) (i : Py)
      → I c
      → I (record c { resources_session = some i; session_ref = some i })
  opened-Inv c i inv = record {
    secure = inv.secure;
    login = inv.login;
    started = inv.started;
    told = inv.told;
    authenticated = λ h.
        Authenticated-same w config has_factory start heard c _ (λ x m. m) (λ _ _. refl)
          (inv.authenticated h);
  }

  initialize_post :
      (c : Connection)
      → I c
      → Post I (λ (_ : Unit {0}) d. Opened c d) (initialize_python_session w c)
  unfolding initialize_python_session
  initialize_post c inv = elim (Result-cases (w.open_session (from_pg c.login))) [
    | inr (x, e) ↦ rw e inv
    | inl (i, e) ↦ rw e (refl, refl, λ _. refl, opened-Inv c i inv)
  ]

  open_post :
      (c : Connection)
      → I c
      → Post I (λ (_ : Unit {0}) d. Opened c d) (open_if_configured w config has_factory c)
  open_post c inv = elim (Bool-cases has_factory) [
    | inl e ↦ rw (opens w config has_factory c e) (initialize_post c inv)
    | inr e ↦ rw (opens_not w config has_factory c e) (refl, refl, λ h. absurd (ground arith), inv)
  ]

-- The final message: it has to prove the key before anything else happens.
pub final_post :
    (w : World) (config : ScramVerifierConfig) (has_factory : Bool) (start : Connection)
    (older : List Frontend) (message : PasswordMessage) (e : Exchange) (c : Connection)
    → c.state ≡ sasl_done
    → Started w config has_factory start older e
    → WasSent (sasl_continue e.server_first) c.sent
    → Inv w config has_factory start (password message ∷ older) c
    → let I = Inv w config has_factory start (password message ∷ older) in
      Post I
        (λ (_ : Unit {0}) d. I d)
        (on_password w config has_factory message (server_first_sent e) c)
unfolding on_password
final_post w config has_factory start older message e c h started told inv =
    let I = Inv w config has_factory start (password message ∷ older) in
    let R = λ (_ : Unit {0}) (d : Connection). I d in
    let opening = open_if_configured w config has_factory in
    bind_lift_post I R message.into_sasl_response _ c inv (λ response reads.
      bind_lift_post I R (verify w.crypto e response)
        (λ out. opening >> let_in w config has_factory out) c inv
        (λ out v.
          let proves = verify-Proves w.crypto e response out v in
          bind_post I (λ _ d. Opened w config has_factory start (password message ∷ older) c d) R
            opening (λ _. let_in w config has_factory out) c
            (open_post w config has_factory start (password message ∷ older) c inv)
            (λ _ d p.
              let_in_post w config has_factory start (password message ∷ older) out d (p.0 ∙ h) p.3
                (record {
                  newer = [];
                  response = message;
                  older = older;
                  heard_eq = refl;
                  exchange = e;
                  started = started;
                  told = subst (WasSent _) (sym p.1) told;
                  message = response;
                  reads = reads;
                  out = out;
                  proves = proves;
                  from_source = started.answers.verifier proves.real;
                  session = p.2;
                }))))
