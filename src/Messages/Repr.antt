-- ===== src/Messages/Repr.antt =====
-- The `__repr__` of the classes of src/messages.rs. The map of parameters prints in the order of its
-- keys, which is that of the list that stands for it.
use pywire.Base.{ℕ, Bool, ◌++◌, map, Text, String, codes, length}
use pywire.Debug.{decimal, signed, quote, join}
use pywire.Messages.{
  PyStartup, PyQuery, PyTerminate, PyTransactionStatus, PyReadyForQuery, PyCommandComplete,
  PyFieldDescription, PyRowDescription, PyDataRow, PyErrorResponse,
}

unfoldable pub terminate_repr : PyTerminate → Text
terminate_repr PyTerminate.terminate = codes "Terminate()"

-- `{:?}` of a `PyTransactionStatus`.
unfoldable pub status_debug : PyTransactionStatus → Text
status_debug PyTransactionStatus.idle = codes "Idle"
status_debug PyTransactionStatus.transaction = codes "Transaction"
status_debug PyTransactionStatus.error = codes "Error"

unfoldable pub ready_for_query_repr : PyReadyForQuery → Text
unfolding status_debug
ready_for_query_repr m = codes "ReadyForQuery(status=" ++ (status_debug m.status ++ codes ")")

unfoldable pub data_row_repr : PyDataRow → Text
unfolding signed
data_row_repr m =
    codes "DataRow(field_count="
    ++ (signed 16 m.field_count
        ++ (codes ", data=<" ++ (decimal (length m.payload) ++ codes " bytes>)")))

unfoldable pub error_response_repr : PyErrorResponse → Text
error_response_repr m =
    codes "ErrorResponse(field_count=" ++ (decimal (length m.fields) ++ codes ")")

module _ (printable : ℕ → Bool) where
  -- `{:?}` of an entry of the `BTreeMap`.
  abbrev entry_debug : String × String → Text
  entry_debug (key, value) = quote printable key ++ (codes ": " ++ quote printable value)

  unfoldable pub startup_repr : PyStartup → Text
  unfolding join
  startup_repr m =
      codes "Startup(protocol_number_major="
      ++ (decimal m.protocol_number_major
          ++ (codes ", protocol_number_minor="
              ++ (decimal m.protocol_number_minor
                  ++ (codes ", parameters={"
                      ++ (join (map entry_debug m.parameters) ++ codes "})")))))

  unfoldable pub query_repr : PyQuery → Text
  query_repr m = codes "Query(query=" ++ (quote printable m.query ++ codes ")")

  unfoldable pub command_complete_repr : PyCommandComplete → Text
  command_complete_repr m = codes "CommandComplete(tag=" ++ (quote printable m.tag ++ codes ")")

  unfoldable pub field_description_repr : PyFieldDescription → Text
  unfolding signed
  field_description_repr f =
      codes "FieldDescription(name="
      ++ (quote printable f.name
          ++ (codes ", type_id="
              ++ (decimal f.type_id
                  ++ (codes ", format_code=" ++ (signed 16 f.format_code ++ codes ")")))))

  unfoldable pub row_description_repr : PyRowDescription → Text
  unfolding join field_description_repr
  row_description_repr m =
      codes "RowDescription(fields=[" ++ (join (map field_description_repr m.fields) ++ codes "])")
