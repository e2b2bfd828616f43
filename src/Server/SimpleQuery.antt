-- ===== src/Server/SimpleQuery.antt =====
-- `PyServerSimpleQueryHandler` of src/server.rs, and `do_query_on` of src/query.rs.
use pywire.Base.{
  ◌≡◌, refl, sym, ap, ◌∙◌, Bool, true, false, Option, none, some, List, [], ◌∷◌, map, String,
  if◌then◌else◌, inl, inr, Bool-cases,
}
use pywire.Error.PgWire.{not_ready_for_query}
use pywire.Query.Response.{Py, PyResponse}
use pywire.Query.Response.Convert.{Response, into_pg, is_transaction_end}
use pywire.Extended.State.{Call, Client, PortalStore, IsStore, World}
use pywire.Extended.Action.{
  Ending, done, failed, panicked, Action, pure, fail, ◌>>=◌, ◌>>◌, lift_py, call_method,
}
use pywire.Extended.Close.{close_all_portals, close_statement, drop_portal}
use pywire.Extended.Handlers.{is_idle, close_if_idle}
use pywire.Extended.Invariant.{Inv, Post, bind_post}
use pywire.Extended.Invariant.Drop.{Dropped, drop_portal_post}
use pywire.Extended.Invariant.CloseAll.{Emptied, close_all_portals_post}
use pywire.Extended.Invariant.Forget.Statement.{Closed, close_statement_post}
use pywire.Extended.Invariant.Sync.{NoPortals, Synced, close_if_idle_post}
use pywire.Extended.Invariant.Query.{call_post, lift_py_post}

abbrev pub any_transaction_end : List Response → Bool
any_transaction_end [] = false
any_transaction_end (r ∷ rs) = if is_transaction_end r then true else any_transaction_end rs

-- `inner` is the object that the server was started with; `on_query_default` is pgwire's `_on_query`,
-- which gets `do_query` to call.
module _ {Store : Type 0} (store : PortalStore Store) (w : World) (handler : Option Py) (inner : Py)
    (on_query_default : (String → Action Store (List Response)) → String → Action Store Unit) where
  instance_or_inner : Option Py → Py
  instance_or_inner none = inner
  instance_or_inner (some i) = i

  -- `do_query_on`, on the session's object or on `inner`.
  unfoldable pub do_query_on : String → Action Store (List PyResponse)
  unfolding call_method instance_or_inner
  do_query_on query c =
      (do
        result ← call_method w (Call.do_query_text (instance_or_inner c.session_ref) query)
        lift_py (w.get_responses result))
        c

  unfoldable pub after_responses : List Response → Action Store (List Response)
  unfolding close_all_portals
  after_responses responses c =
      if any_transaction_end responses
      then (do close_all_portals store w handler; pure responses) c
      else (pure responses) c

  -- `do_query`.
  unfoldable pub do_query : String → Action Store (List Response)
  unfolding do_query_on after_responses into_pg
  do_query query = do
    py_responses ← do_query_on query
    after_responses (map (into_pg w.types) py_responses)

  -- `result` at the end of `on_query`.
  unfoldable pub give_back : Ending (Unit {0}) → Action Store Unit
  give_back (done a) c = (done a, c)
  give_back (failed e) c = (failed e, c)
  give_back panicked c = (panicked, c)

  unfoldable pub close_behind : Ending (Unit {0}) × Client Store → Ending (Unit {0}) × Client Store
  unfolding close_if_idle give_back
  close_behind (done a, c) = (close_if_idle store w handler >> give_back (done a)) c
  close_behind (failed e, c) = (close_if_idle store w handler >> give_back (failed e)) c
  close_behind (panicked, c) = (panicked, c)

  -- What `on_query` does once the unnamed portal and statement are closed.
  unfoldable pub run_query : String → Action Store Unit
  unfolding do_query close_behind
  run_query query c = close_behind (on_query_default do_query query c)

  -- `on_query`.
  unfoldable pub on_query : String → Action Store Unit
  unfolding drop_portal close_statement run_query
  on_query query c =
      if c.ready
      then (drop_portal store w handler w.default_name
            >> (close_statement store w handler w.default_name >> run_query query))
          c
      else (fail not_ready_for_query) c

  module _ (laws : IsStore store) where
    abbrev I : Client Store → Type 0
    I = Inv store w handler

    -- pgwire's `_on_query` changes the connection through `do_query`, and else only its status, its
    -- state and what is sent: what these do not touch and `do_query` keeps, it keeps.
    abbrev pub KeepsWhatQueriesKeep : Type 0
    KeepsWhatQueriesKeep =
        (do_query' : String → Action Store (List Response))
        → ((q : String) (c : Client Store)
            → Inv store w handler c
            → Post I (λ (_ : List Response) d. Inv store w handler d) (do_query' q c))
        → (q : String) (c : Client Store) → Inv store w handler c
        → Post I (λ (_ : Unit {0}) d. Inv store w handler d) (on_query_default do_query' q c)

    do_query_on_post :
        (q : String) (c : Client Store)
        → Inv store w handler c
        → Post I (λ (_ : List PyResponse) d. Inv store w handler d) (do_query_on q c)
    unfolding do_query_on
    do_query_on_post q c inv =
        bind_post I (λ (_ : Py) d. Inv store w handler d)
          (λ (_ : List PyResponse) d. Inv store w handler d)
          (call_method w (Call.do_query_text (instance_or_inner c.session_ref) q))
          (λ result. lift_py (w.get_responses result)) c
          (call_post store laws w handler (Call.do_query_text (instance_or_inner c.session_ref) q) c
            inv (λ r j live. refl) (λ r j live. refl))
          (λ result d inv'. lift_py_post store laws w handler (w.get_responses result) d inv')

    after_responses_post :
        (rs : List Response) (c : Client Store)
        → Inv store w handler c
        → Post I (λ (_ : List Response) d. Inv store w handler d) (after_responses rs c)
    unfolding after_responses
    after_responses_post rs c inv = elim (Bool-cases (any_transaction_end rs)) [
      | inr e ↦ rw e inv
      | inl e ↦ rw e (
          bind_post I (λ _ d. Emptied store laws w handler c d)
            (λ (_ : List Response) d. Inv store w handler d) (close_all_portals store w handler)
            (λ _. pure rs) c (close_all_portals_post store laws w handler c inv) (λ _ d p. p.inv))
    ]

    do_query_post :
        (q : String) (c : Client Store)
        → Inv store w handler c
        → Post I (λ (_ : List Response) d. Inv store w handler d) (do_query q c)
    unfolding do_query
    do_query_post q c inv =
        bind_post I (λ (_ : List PyResponse) d. Inv store w handler d)
          (λ (_ : List Response) d. Inv store w handler d) (do_query_on q)
          (λ rs. after_responses (map (into_pg w.types) rs)) c (do_query_on_post q c inv)
          (λ rs d inv'. after_responses_post (map (into_pg w.types) rs) d inv')

    -- Behind a query no portal is open unless a transaction is.
    abbrev pub Tidy : Client Store → Type 0
    Tidy d = Inv store w handler d × (is_idle d.status ≡ true → NoPortals store laws w handler d)

    tidy : (c d : Client Store) → Synced store laws w handler c d → Tidy d
    tidy c d p = (p.inv_after, λ e. p.closed (ap is_idle (sym p.status) ∙ e))

    close_behind_post :
        (r : Ending (Unit {0}) × Client Store)
        → Post I (λ (_ : Unit {0}) d. Inv store w handler d) r
        → Post I (λ (_ : Unit {0}) d. Tidy d) (close_behind r)
    unfolding close_behind give_back
    close_behind_post (panicked, c) h = h
    close_behind_post (done a, c) h =
        bind_post I (λ _ d. Synced store laws w handler c d × (d.sent ≡ c.sent))
          (λ (_ : Unit {0}) d. Tidy d) (close_if_idle store w handler) (λ _. give_back (done a)) c
          (close_if_idle_post store laws w handler c h) (λ _ d p. tidy c d p.0)
    close_behind_post (failed e, c) h =
        bind_post I (λ _ d. Synced store laws w handler c d × (d.sent ≡ c.sent))
          (λ (_ : Unit {0}) d. Tidy d) (close_if_idle store w handler) (λ _. give_back (failed e)) c
          (close_if_idle_post store laws w handler c h) (λ _ d p. p.0.inv_after)

    run_query_post :
        (q : String) (c : Client Store)
        → KeepsWhatQueriesKeep
        → Inv store w handler c
        → Post I (λ (_ : Unit {0}) d. Tidy d) (run_query q c)
    unfolding run_query
    run_query_post q c keeps inv =
        close_behind_post (on_query_default do_query q c) (keeps do_query do_query_post q c inv)

    answered_post :
        (q : String) (c : Client Store)
        → KeepsWhatQueriesKeep
        → Inv store w handler c
        → Post I
            (λ (_ : Unit {0}) d. Tidy d)
            ((drop_portal store w handler w.default_name
                >> (close_statement store w handler w.default_name >> run_query q))
              c)
    answered_post q c keeps inv =
        bind_post I (λ _ d. Dropped store laws w handler w.default_name c d)
          (λ (_ : Unit {0}) d. Tidy d) (drop_portal store w handler w.default_name)
          (λ _. close_statement store w handler w.default_name >> run_query q) c
          (drop_portal_post store laws w handler w.default_name c inv)
          (λ _ d p.
            bind_post I (λ _ x. Closed store laws w handler w.default_name d x)
              (λ (_ : Unit {0}) x. Tidy x) (close_statement store w handler w.default_name)
              (λ _. run_query q) d
              (close_statement_post store laws w handler w.default_name d p.inv)
              (λ _ x r. run_query_post q x keeps r.inv_after))

    -- A simple query keeps the invariant of the tables on every path and does not panic; when it
    -- returns and no transaction is open, no portal is left, in the tables or in pgwire's store.
    pub on_query-Tidy :
        (q : String) (c : Client Store)
        → KeepsWhatQueriesKeep
        → Inv store w handler c
        → Post I (λ (_ : Unit {0}) d. Tidy d) (on_query q c)
    unfolding on_query
    on_query-Tidy q c keeps inv = by_ready c.ready
      where
        by_ready :
            (b : Bool)
            → Post I
                (λ (_ : Unit {0}) d. Tidy d)
                (if b
                  then (drop_portal store w handler w.default_name
                        >> (close_statement store w handler w.default_name >> run_query q))
                      c
                  else (failed not_ready_for_query, c))
        by_ready true = answered_post q c keeps inv
        by_ready false = inv
