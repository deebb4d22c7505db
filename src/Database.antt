-- ===== src/Database.antt =====
-- The database module, src/db/database_module.c: connections and results. A connection is simulated,
-- and no query is sent anywhere.
use net_serve.Prelude.{
  ℕ, zero, suc, ◌+◌, Bool, true, false, not, ◌&&◌, ◌||◌, Option, none, some, List, [], ◌∷◌, ◌++◌,
  Bytes, length, leb, ltb, str_eq, first_bytes, if◌then◌else◌,
}
use net_serve.Config.Store.{ℤ, pos, negsuc}
pub mod Pool
pub mod Clients
pub mod Columns
mod Tests

pub data Kind : Type 0 where
  sqlite mysql postgresql unknown : Kind

pub data Status : Type 0 where
  disconnected connecting connected error : Status

-- `handle` says that `connection` is not NULL.
pub record Connection : Type 0 where
  pub handle : Bool
  pub kind : Kind
  pub status : Status
  pub host : Option Bytes
  pub port : ℕ
  pub database : Option Bytes
  pub username : Option Bytes
  pub password : Option Bytes
  pub last_error : Option Bytes
  pub timeout : ℕ

pub record Config : Type 0 where
  pub kind : Kind
  pub host : Option Bytes
  pub port : ℕ
  pub database : Option Bytes
  pub username : Option Bytes
  pub password : Option Bytes
  pub timeout : ℕ
  pub max_connections : ℕ
  pub enable_pooling : Bool

-- What `create_db_connection` fills in.
abbrev pub new_connection : Connection
new_connection = record {
  handle = false;
  kind = unknown;
  status = disconnected;
  host = none;
  port = 0;
  database = none;
  username = none;
  password = none;
  last_error = none;
  timeout = 30;
}

-- With the answer of `calloc`.
unfoldable pub create_connection : Bool → Option Connection
create_connection ok = if ok then some new_connection else none

abbrev connect_with : Config → Connection → Connection
connect_with k c = record c {
  handle = true;
  kind = k.kind;
  status = connected;
  host = k.host;
  port = k.port;
  database = k.database;
  username = k.username;
  password = k.password;
  timeout = k.timeout;
}

unfoldable pub connect : Bool → Config → Option Connection
unfolding create_connection
connect ok k = elim (create_connection ok) [ none ↦ none | some c ↦ some (connect_with k c) ]

unfoldable pub disconnect : Connection → Connection
disconnect c = record c { handle = false; status = disconnected }

abbrev is_up : Status → Bool
is_up connected = true
is_up _ = false

unfoldable pub is_connected : Connection → Bool
is_connected c = is_up c.status && c.handle

-- The flag is the return of 0. Beginning, committing and rolling back a transaction are the same.
unfoldable pub ping : Connection → Bool
unfolding is_connected
ping c = is_connected c

pub record Row : Type 0 where
  pub columns : List Bytes
  pub values : List (Option Bytes)

-- `column_count` is the length of `columns`, and of `values`.
pub record Answer : Type 0 where
  pub rows : List Row
  pub row_count : ℕ
  pub affected_rows : ℕ
  pub last_error : Option Bytes

abbrev pub no_rows : Answer
no_rows = record { rows = []; row_count = 0; affected_rows = 0; last_error = none }

-- With the answer of `calloc`.
unfoldable pub execute_query : Bool → Connection → Bytes → Option Answer
unfolding is_connected
execute_query ok c sql = if is_connected c && ok then some no_rows else none

-- `none` is -1, and `some` the number of rows.
unfoldable pub execute_update : Connection → Bytes → Option ℕ
unfolding is_connected
execute_update c sql = if is_connected c then some 0 else none

unfoldable pub batch_loop : Connection → List Bytes → Bool
batch_loop c [] = true
batch_loop c (s ∷ ss) = elim (execute_update c s) [ none ↦ false | some n ↦ batch_loop c ss ]

unfoldable pub execute_batch : Connection → List Bytes → Option ℕ
unfolding is_connected batch_loop
execute_batch c ss =
    if leb (length ss) 0 || not (is_connected c)
    then none
    else if batch_loop c ss
    then some (length ss)
    else none

unfoldable pub row_at : ℕ → List Row → Option Row
row_at n [] = none
row_at zero (r ∷ rs) = some r
row_at (suc n) (r ∷ rs) = row_at n rs

unfoldable pub value_at : ℕ → List (Option Bytes) → Option Bytes
value_at n [] = none
value_at zero (v ∷ vs) = v
value_at (suc n) (v ∷ vs) = value_at n vs

unfoldable pub get_column_count : Answer → ℕ
get_column_count a = elim (a.rows) [ [] ↦ 0 | (r ∷ rs) ↦ length r.columns ]

-- `none` is NULL, for a place outside as for a NULL that the row holds.
unfoldable pub get_value : Answer → ℤ → ℤ → Option Bytes
unfolding row_at value_at
get_value a (pos i) (pos j) = elim (row_at i a.rows) [
  | none ↦ none
  | some r ↦ (if leb (length r.columns) j then none else value_at j r.values)
]
get_value a _ _ = none

-- The loop that looks for a column, from number `i`.
unfoldable pub find_column : ℕ → Bytes → List Bytes → Option ℕ
find_column i n [] = none
find_column i n (k ∷ ks) =
    let rest = find_column (i + 1) n ks in if str_eq k n then some i else rest

unfoldable pub get_value_by_name : Answer → ℤ → Bytes → Option Bytes
unfolding get_value find_column
get_value_by_name a i n = elim (a.rows) [
  | [] ↦ none
  | (r ∷ rs) ↦ elim (find_column 0 n r.columns) [ none ↦ none | some j ↦ get_value a i (pos j) ]
]

abbrev quote : ℕ
quote = 96

unfoldable pub quote_identifier : Bool → Bytes → Option Bytes
quote_identifier ok s = if ok then some (quote ∷ (s ++ quote ∷ [])) else none

-- It escapes nothing.
unfoldable pub escape_string : Bool → Bytes → Option Bytes
escape_string ok s = if ok then some s else none
