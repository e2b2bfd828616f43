-- ===== src/Startup/Scram/Authenticated.antt =====
-- What it takes to be let in by src/scram_verifier.rs, and the first message.
pub mod Final
pub mod Messages
use pywire.Base.{
  ◌≡◌, refl, sym, ap, subst, ◌∙◌, Bool, true, false, ◌||◌, Option, none, some, List, [], ◌∷◌, ◌++◌,
  arith, codes, Result, err, String, Text, if◌then◌else◌, ok, ok_or, Result-cases, Bool-cases, inl,
  inr,
}
use pywire.Error.PgWire.{PgWireError, invalid_scram_message}
use pywire.Query.Response.{Py}
use pywire.Scram.Crypto.{Bytes}
use pywire.Scram.Verifier.{Verifier}
use pywire.Scram.Decimal.{format_u32}
use pywire.Scram.ClientFirst
use pywire.Scram.ClientFirst.{ClientFirst, is_some}
use pywire.Scram.Negotiate.{negotiate}
use pywire.Scram.Exchange
use pywire.Scram.Exchange.{Exchange, verify, utf8}
use pywire.Scram.Exchange.Sound.{Proves, verify-Proves}
use pywire.Auth.{LoginInfo, from_pg}
use pywire.Step.{
  pure, Post, bind_post, bind_lift_post, bind_lift_py_post, ◌>>=◌, ◌>>◌, Ending, done, failed,
  panicked, lift,
}
use pywire.Startup.Connection.{
  State, initial, server_first_sent, sasl_done, Sent, sasl, sasl_continue, sasl_final,
  PasswordMessage, Frontend, startup, password, other, Connection, World, send,
}
use pywire.Startup.Scram.{
  let_in, answer_first, ScramVerifierConfig, text_or_empty, name_or_empty,
  initialize_python_session, certificate, verifier_or_mock, begin, start, open_if_configured,
  finish, take_state, mechanisms, on_password, on_startup,
}

abbrev pub has_final : List Sent → Bool
has_final [] = false
has_final (sasl _ ∷ ms) = has_final ms
has_final (sasl_continue _ ∷ ms) = has_final ms
has_final (sasl_final _ ∷ ms) = true

-- The connection tells the client, pgwire or the manager that it is authenticated.
abbrev pub is_let_in : Connection → Bool
is_let_in c = c.ready || c.registered || has_final c.sent

-- One of the messages that were sent.
pub data WasSent (x : Sent) : List Sent → Type 0 where
  newest : (xs : List Sent) → WasSent x (x ∷ xs)
  earlier : (y : Sent) (xs : List Sent) → WasSent x xs → WasSent x (y ∷ xs)

module _ (w : World) (config : ScramVerifierConfig) (has_factory : Bool) where
  -- The login after a startup message, by the answer of the protocol negotiation.
  abbrev pub saved : Result PgWireError (Unit {0}) → LoginInfo → LoginInfo → LoginInfo
  saved (ok v) new old = new
  saved (err e) new old = old

  -- The login that a connection has from the messages it got, the newest first.
  abbrev pub login_of : LoginInfo → List Frontend → LoginInfo
  login_of given [] = given
  login_of given (startup login ∷ heard) =
      saved (w.protocol_negotiation login) login (login_of given heard)
  login_of given (password message ∷ heard) = login_of given heard
  login_of given (other ∷ heard) = login_of given heard

  -- The exchange that RFC 5802 makes from a client-first-message and this server's nonce:
  -- with the parts of that message as it was sent, the channel-binding data of a connection that is
  -- encrypted or not, and the verifier that the source has for the login, unless it is a mock.
  pub record Answers (secure : Bool) (login : LoginInfo) (mechanism : String)
      (payload : Option Bytes) (e : Exchange) : Type 0 where
    pub bytes : Bytes
    pub text : Text
    pub first : ClientFirst
    pub cbind_data : Bytes
    pub given : payload ≡ some bytes
    pub decoded : utf8 bytes ≡ ok text
    pub parsed : ClientFirst.parse text ≡ ok first
    pub agreed :
        negotiate mechanism first.cbind_flag (if secure then config.certificate else none)
        ≡ ok cbind_data
    pub nonce : e.nonce ≡ first.nonce ++ w.crypto.encode w.random
    pub server_first :
        e.server_first
        ≡ codes "r="
          ++ (e.nonce
              ++ (codes ",s="
                  ++ (w.crypto.encode e.verifier.salt
                      ++ (codes ",i=" ++ format_u32 e.verifier.iterations))))
    pub channel_binding : e.channel_binding ≡ w.crypto.encode (first.gs2_header ++ cbind_data)
    pub auth_prefix : e.auth_prefix ≡ first.bare ++ (b',' ∷ e.server_first)
    pub verifier : e.mock ≡ false → w.get_scram_verifier (from_pg login) ≡ ok (some e.verifier)

  -- The exchange answers one of the messages that the connection got, with the login of that time.
  pub record Started (start : Connection) (heard : List Frontend) (e : Exchange) : Type 0 where
    pub newer : List Frontend
    pub request : PasswordMessage
    pub older : List Frontend
    pub heard_eq : heard ≡ newer ++ (password request ∷ older)
    pub mechanism : String
    pub payload : Option Bytes
    pub reads : request.into_sasl_initial_response ≡ ok (mechanism, payload)
    pub answers : Answers start.secure (login_of start.login older) mechanism payload e

  -- An exchange was started and its server-first-message sent; then a password message came that
  -- proves the key of the exchange's verifier, which is the source's; and the session is open.
  pub record Authenticated (start : Connection) (heard : List Frontend) (c : Connection)
      : Type 0 where
    pub newer : List Frontend
    pub response : PasswordMessage
    pub older : List Frontend
    pub heard_eq : heard ≡ newer ++ (password response ∷ older)
    pub exchange : Exchange
    pub started : Started start older exchange
    pub told : WasSent (sasl_continue exchange.server_first) c.sent
    pub message : Bytes
    pub reads : response.into_sasl_response ≡ ok message
    pub out : Text
    pub proves : Proves w.crypto exchange message out
    pub from_source :
        w.get_scram_verifier (from_pg (login_of start.login started.older))
        ≡ ok (some exchange.verifier)
    pub session : has_factory ≡ true → is_some c.session_ref ≡ true

  pub record Inv (start : Connection) (heard : List Frontend) (c : Connection) : Type 0 where
    pub secure : c.secure ≡ start.secure
    pub login : c.login ≡ login_of start.login heard
    pub started : (e : Exchange) → c.state ≡ server_first_sent e → Started start heard e
    pub told :
        (e : Exchange)
        → c.state ≡ server_first_sent e
        → WasSent (sasl_continue e.server_first) c.sent
    pub authenticated : is_let_in c ≡ true → Authenticated start heard c

  -- The first message is answered without a change of the connection.
  begin_post :
      (mechanism : String) (bytes text : Bytes) (first : ClientFirst) (cbind_data : Bytes)
      (c : Connection)
      → utf8 bytes ≡ ok text
      → ClientFirst.parse text ≡ ok first
      → negotiate mechanism first.cbind_flag (if c.secure then config.certificate else none)
        ≡ ok cbind_data
      → Post
          (λ d. d ≡ c)
          (λ e d. (d ≡ c) × Answers c.secure c.login mechanism (some bytes) e)
          (begin w config has_factory first cbind_data c)
  unfolding begin Exchange.new verifier_or_mock
  begin_post mechanism bytes text first cbind_data c decoded parsed agreed =
      bind_lift_py_post (λ d. d ≡ c)
        (λ e d. (d ≡ c) × Answers c.secure c.login mechanism (some bytes) e)
        (w.get_scram_verifier (from_pg c.login)) _ c refl (λ found h. behind found h)
    where
      answers :
          (verifier : Verifier) (mock : Bool)
          → (mock ≡ false → w.get_scram_verifier (from_pg c.login) ≡ ok (some verifier))
          → Answers c.secure c.login mechanism (some bytes) (
              Exchange.new w.crypto first cbind_data
                (w.crypto.encode w.random)
                (name_or_empty (from_pg c.login).user)
                verifier
                mock)
      answers verifier mock source = record {
        bytes = bytes;
        text = text;
        first = first;
        cbind_data = cbind_data;
        given = refl;
        decoded = decoded;
        parsed = parsed;
        agreed = agreed;
        nonce = refl;
        server_first = refl;
        channel_binding = refl;
        auth_prefix = refl;
        verifier = source;
      }

      behind :
          (found : Option Verifier)
          → w.get_scram_verifier (from_pg c.login) ≡ ok found
          → (c ≡ c)
            × Answers c.secure c.login mechanism (some bytes) (
                Exchange.new w.crypto first cbind_data
                  (w.crypto.encode w.random)
                  (name_or_empty (from_pg c.login).user)
                  (verifier_or_mock w config has_factory
                    (text_or_empty (from_pg c.login).user)
                    found).0
                  (verifier_or_mock w config has_factory
                    (text_or_empty (from_pg c.login).user)
                    found).1)
      behind none h = (refl, answers _ true (λ real. absurd (ground arith)))
      behind (some v) h = (refl, answers v false (λ real. h))

  answer_first_post :
      (mechanism : String) (bytes text : Bytes) (first : ClientFirst) (c : Connection)
      → utf8 bytes ≡ ok text
      → ClientFirst.parse text ≡ ok first
      → Post
          (λ d. d ≡ c)
          (λ e d. (d ≡ c) × Answers c.secure c.login mechanism (some bytes) e)
          (answer_first w config has_factory mechanism first c)
  unfolding answer_first certificate
  answer_first_post mechanism bytes text first c decoded parsed =
      bind_lift_post (λ d. d ≡ c)
        (λ e d. (d ≡ c) × Answers c.secure c.login mechanism (some bytes) e)
        (negotiate mechanism first.cbind_flag (if c.secure then config.certificate else none))
        (begin w config has_factory first) c refl
        (λ cbind_data agreed.
          begin_post mechanism bytes text first cbind_data c decoded parsed agreed)

  pub start_post :
      (mechanism : String) (payload : Option Bytes) (c : Connection)
      → Post
          (λ d. d ≡ c)
          (λ e d. (d ≡ c) × Answers c.secure c.login mechanism payload e)
          (start w config has_factory mechanism payload c)
  unfolding start
  start_post mechanism none c = refl
  start_post mechanism (some bytes) c =
      let Q = λ (e : Exchange) (d : Connection).
        (d ≡ c) × Answers c.secure c.login mechanism (some bytes) e in
      bind_lift_post (λ d. d ≡ c) Q (utf8 bytes)
        (λ (text : Text).
          lift (ClientFirst.parse text) >>= answer_first w config has_factory mechanism)
        c refl
        (λ text decoded.
          bind_lift_post (λ d. d ≡ c) Q (ClientFirst.parse text)
            (answer_first w config has_factory mechanism) c refl
            (λ first parsed. answer_first_post mechanism bytes text first c decoded parsed))

  -- What was heard and done stays so, whatever is heard and sent after it.
  pub Started-later :
      (start : Connection) (m : Frontend) (heard : List Frontend) (e : Exchange)
      → Started start heard e
      → Started start (m ∷ heard) e
  Started-later start m heard e s = record {
    newer = m ∷ s.newer;
    request = s.request;
    older = s.older;
    heard_eq = ap (λ h. m ∷ h) s.heard_eq;
    mechanism = s.mechanism;
    payload = s.payload;
    reads = s.reads;
    answers = s.answers;
  }

  pub Authenticated-later :
      (start : Connection) (m : Frontend) (heard : List Frontend) (c : Connection)
      → Authenticated start heard c
      → Authenticated start (m ∷ heard) c
  Authenticated-later start m heard c a = record {
    newer = m ∷ a.newer;
    response = a.response;
    older = a.older;
    heard_eq = ap (λ h. m ∷ h) a.heard_eq;
    exchange = a.exchange;
    started = a.started;
    told = a.told;
    message = a.message;
    reads = a.reads;
    out = a.out;
    proves = a.proves;
    from_source = a.from_source;
    session = a.session;
  }

  pub Authenticated-same :
      (start : Connection) (heard : List Frontend) (c d : Connection)
      → ((x : Sent) → WasSent x c.sent → WasSent x d.sent)
      → (has_factory ≡ true → is_some c.session_ref ≡ true → is_some d.session_ref ≡ true)
      → Authenticated start heard c
      → Authenticated start heard d
  Authenticated-same start heard c d grows opens a = record {
    newer = a.newer;
    response = a.response;
    older = a.older;
    heard_eq = a.heard_eq;
    exchange = a.exchange;
    started = a.started;
    told = grows _ a.told;
    message = a.message;
    reads = a.reads;
    out = a.out;
    proves = a.proves;
    from_source = a.from_source;
    session = λ h. opens h (a.session h);
  }
