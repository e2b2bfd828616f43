-- ===== src/Tests/Extended.antt =====
-- Witnesses for the theorems on src/extended.rs: a session that parses, binds, syncs and closes.
use pywire.Base.{arith, ◌≡◌, ◌↔◌, refl, true, false, Option, some, codes, List, [], ◌∷◌}
use pywire.HashMap.{lookup}
use pywire.Query.Response.{Py}
use pywire.Extended.EmptyQuery.{scan, is_empty_query}
use pywire.Extended.EmptyQuery.Fuel.{scan-is_empty_query}
use pywire.Extended.EmptyQuery.Grammar.{Blank, is_empty_query-iff-Blank}
use pywire.Extended.State.{Client}
use pywire.Extended.Bind.{on_bind}
use pywire.Extended.Handlers.{on_sync, on_close}
use pywire.Extended.Invariant.{Inv, Post, live_portal, live_statement}
use pywire.Extended.Invariant.Bind.{Opened}
use pywire.Extended.Invariant.Bind.Handler.{on_bind_post}
use pywire.Extended.Invariant.Sync.{SyncedAndTold, on_sync_post}
use pywire.Extended.Invariant.Close.{CloseDone, on_close_post}
use pywire.Extended.Requests.{parse, bind, sync, handle}
use pywire.Extended.Session.{
  Fresh, Reachable, started, handled, has_panicked, Reachable-Inv, handle-no_panic,
}
use pywire.Extended.Refinement.{Refined, handle-Refined}
use pywire.Extended.Action.{done}
use pywire.Extended.Handlers.{is_idle}
use pywire.Extended.Spec.{view}
use pywire.Extended.Conversation.{
  Asked, Run, empty_session, Conversed, silent, returned, Conversed-Run,
}
use pywire.Extended.Frame.{Frame}
use pywire.Extended.Frame.Handlers.{names_portal, names_statement, handle-Frame}
use pywire.Tests.Store.{Store, store, laws, world, makes, fresh, parse_s, bind_p, close_s}

abbrev pub handler : Option Py
handler = some 1

abbrev pub parsed : Client Store
parsed = (handle store world handler (parse parse_s) fresh).1

abbrev pub bound : Client Store
bound = (handle store world handler (bind bind_p) parsed).1

pub is_fresh : Fresh store world handler fresh
unfolding lookup live_portal live_statement
is_fresh = record {
  installed = refl;
  no_entries = refl;
  no_statements = refl;
  no_portal = λ n. refl;
  no_statement = λ n. refl;
  nothing_open = λ n. (refl, refl);
}

reaches_fresh : Reachable store world handler fresh
reaches_fresh = started fresh is_fresh

pub reaches_bound : Reachable store world handler bound
reaches_bound = handled parsed (bind bind_p) (handled fresh (parse parse_s) reaches_fresh)

-- The portal is open, in the table and in Python.
opened_in_python : live_portal "p" bound.calls ≡ true
unfolding handle live_portal lookup pywire.HashMap.insert
opened_in_python = refl

Reachable-Inv_example : Inv store world handler bound
Reachable-Inv_example = Reachable-Inv store laws world makes handler bound reaches_bound

bound-Inv : Inv store world handler bound
bound-Inv = Reachable-Inv store laws world makes handler bound reaches_bound

parsed-Inv : Inv store world handler parsed
parsed-Inv =
    Reachable-Inv store laws world makes handler parsed
      (handled fresh (parse parse_s) reaches_fresh)

fresh-Inv : Inv store world handler fresh
fresh-Inv = Reachable-Inv store laws world makes handler fresh reaches_fresh

handle-no_panic_example : has_panicked (handle store world handler sync bound).0 ≡ false
handle-no_panic_example = handle-no_panic store laws world makes handler bound sync reaches_bound

on_bind_post_example :
    Post
      (Inv store world handler)
      (λ _ d. Opened store laws world handler "p" "s" parsed d)
      (on_bind store world handler bind_p parsed)
on_bind_post_example = on_bind_post store laws world handler bind_p parsed parsed-Inv makes

on_sync_post_example :
    Post
      (Inv store world handler)
      (λ _ d. SyncedAndTold store laws world handler bound d)
      (on_sync store world handler bound)
on_sync_post_example = on_sync_post store laws world handler bound bound-Inv

on_close_post_example :
    Post
      (Inv store world handler)
      (λ _ d. CloseDone store laws world handler close_s bound d)
      (on_close store world handler close_s bound)
on_close_post_example = on_close_post store laws world handler close_s bound bound-Inv

scan-is_empty_query_example :
    scan 20 (codes "/* a */ ; -- b") ≡ is_empty_query (codes "/* a */ ; -- b")
scan-is_empty_query_example = scan-is_empty_query 20 (codes "/* a */ ; -- b") (omega arith)

is_empty_query-iff-Blank_example :
    (is_empty_query (codes "/* a */ ; -- b") ≡ true) ↔ Blank (codes "/* a */ ; -- b")
is_empty_query-iff-Blank_example = is_empty_query-iff-Blank (codes "/* a */ ; -- b")

handle-Refined_example :
    Post
      (Inv store world handler)
      (Refined store laws world makes handler (bind bind_p) parsed)
      (handle store world handler (bind bind_p) parsed)
handle-Refined_example =
    handle-Refined store laws world makes handler (bind bind_p) parsed parsed-Inv

parsed_returns : handle store world handler (parse parse_s) fresh ≡ (done tt, parsed)
unfolding handle lookup pywire.HashMap.insert
parsed_returns = refl

bound_returns : handle store world handler (bind bind_p) parsed ≡ (done tt, bound)
unfolding handle lookup pywire.HashMap.insert
bound_returns = refl

abbrev asked : List Asked
asked = (is_idle fresh.status, parse parse_s) ∷ (is_idle parsed.status, bind bind_p) ∷ []

asked_both : Conversed store world handler asked fresh bound
asked_both =
    returned (parse parse_s) ((is_idle parsed.status, bind bind_p) ∷ []) fresh parsed bound
      parsed_returns (returned (bind bind_p) [] parsed bound bound bound_returns (silent bound))

Conversed-Run_example : Run world asked empty_session (view store bound)
Conversed-Run_example =
    Conversed-Run store laws world makes handler asked fresh bound is_fresh asked_both

-- The portal is bound once more, which fails: `p` is there already.
handle-Frame_example :
    Frame store laws
      (names_portal world (bind bind_p))
      (names_statement world (bind bind_p))
      bound
      (handle store world handler (bind bind_p) bound).1
handle-Frame_example = handle-Frame store laws world handler (bind bind_p) bound
