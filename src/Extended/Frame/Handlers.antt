-- ===== src/Extended/Frame/Handlers.antt =====
-- Whatever a handler of src/extended.rs ends in, it opens and changes nothing but what the request
-- names.
use pywire.Base.{Bool, false, Option, String, str_eq}
use pywire.Query.Response.{Py}
use pywire.Extended.State.{Client, PortalStore, IsStore, World, name_or}
use pywire.Extended.Close.{instance_for}
use pywire.Extended.Handlers.{
  describe_statement_by, do_describe_statement, describe_portal_by, do_describe_portal, run_portal,
  do_query,
}
use pywire.Extended.Requests.{
  Request, parse, bind, sync, close, describe_statement, describe_portal, execute, handle,
}
use pywire.Extended.Frame.{Frame}
use pywire.Extended.Frame.Bind.{on_bind-K}
use pywire.Extended.Frame.Tables.{on_parse-T, on_sync-T, on_close-T}
use pywire.Extended.Frame.Queries.{
  describe_statement-T, describe_portal-T, run_portal-T, discarded-T,
}

-- The names that a request may open something under.
abbrev pub names_portal : World → Request → String → Bool
names_portal w (bind m) n = str_eq (name_or w.default_name m.portal_name) n
names_portal w _ n = false

abbrev pub names_statement : World → Request → String → Bool
names_statement w (parse m) n = str_eq (name_or w.default_name m.name) n
names_statement w _ n = false

module _ {Store : Type 0} (store : PortalStore Store) (laws : IsStore store) (w : World)
    (handler : Option Py) where
  -- Whatever a request ends in, also where it fails halfway or Python raises: in the table of portals
  -- every entry but that of the portal that the request binds, and in pgwire's store every statement
  -- but the one that it parses, is as it was or is gone. None is opened, replaced or changed.
  pub handle-Frame :
      (r : Request) (c : Client Store)
      → Frame store laws (names_portal w r) (names_statement w r) c (handle store w handler r c).1
  unfolding handle do_describe_statement do_describe_portal do_query
  handle-Frame (parse m) c =
      on_parse-T store laws (names_portal w (parse m)) (names_statement w (parse m)) w handler m
        (λ n h. h) c
  handle-Frame (bind m) c =
      on_bind-K store laws (names_portal w (bind m)) (names_statement w (bind m)) w handler m
        (λ n h. h) c
  handle-Frame sync c =
      on_sync-T store laws (names_portal w sync) (names_statement w sync) w handler c
  handle-Frame (close m) c =
      on_close-T store laws (names_portal w (close m)) (names_statement w (close m)) w handler m c
  handle-Frame (describe_statement target) c =
      discarded-T store laws (names_portal w (describe_statement target))
        (names_statement w (describe_statement target)) w handler
        (describe_statement_by store w handler target (instance_for store w handler c))
        (describe_statement-T store laws _ _ w handler target (instance_for store w handler c)) c
  handle-Frame (describe_portal target) c =
      discarded-T store laws (names_portal w (describe_portal target))
        (names_statement w (describe_portal target)) w handler
        (describe_portal_by store w handler target (instance_for store w handler c))
        (describe_portal-T store laws _ _ w handler target (instance_for store w handler c)) c
  handle-Frame (execute portal max_rows) c =
      discarded-T store laws (names_portal w (execute portal max_rows))
        (names_statement w (execute portal max_rows)) w handler
        (run_portal store w handler portal max_rows (instance_for store w handler c))
        (run_portal-T store laws _ _ w handler portal max_rows (instance_for store w handler c)) c
