-- ===== src/Database/Tests.antt =====
-- Runs of the database module, and its theorems at concrete inputs.
use net_serve.Prelude.{◌≡◌, refl, true, none, some, [], ◌∷◌, str_eq}
use net_serve.Config.Store.{pos, negsuc}
use net_serve.Database.{
  Answer, new_connection, disconnect, is_connected, execute_query, get_value_by_name, get_value,
  row_at, value_at, no_rows,
}
use net_serve.Database.Pool.{Data, module_init, return_connection, decrement}
use net_serve.Database.Columns.{get_value_by_name_first}

abbrev one_used : Data
one_used = record module_init {
  connections = some (new_connection ∷ new_connection ∷ []);
  max_connections = 2;
  connection_count = pos 1;
}

-- Without a connection taken, a return leaves a count below 0.
below_zero : (return_connection (pos 0) module_init).connection_count ≡ negsuc 0
unfolding return_connection decrement
below_zero = refl

-- A connection answers queries until it is closed.
closed_stays_closed :
    execute_query true (disconnect (record new_connection { handle = true })) [] ≡ none
unfolding execute_query is_connected disconnect
closed_stays_closed = refl

abbrev users : Answer
users = record no_rows {
  rows =
      record {
        columns = (b'i' ∷ []) ∷ (b'n' ∷ []) ∷ [];
        values = some (b'1' ∷ []) ∷ some (b'a' ∷ []) ∷ [];
      }
      ∷ [];
  row_count = 1;
}

name_of_first : get_value_by_name users (pos 0) (b'n' ∷ []) ≡ some (b'a' ∷ [])
unfolding get_value row_at value_at str_eq
name_of_first =
    get_value_by_name_first users _ [] (pos 0) (b'n' ∷ []) ((b'i' ∷ []) ∷ []) [] refl refl
      (refl, tt)
