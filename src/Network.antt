-- ===== src/Network.antt =====
-- The network modules, src/net/network_module.{h,c} and, in Enhanced, src/net/enhanced_network_module.c.
-- A connection is the address of its handle. Of libuv the models keep which handles are open and for
-- which a close callback is due; `uv_close` on a handle that is closing is an error of the caller.
-- Binding, listening and accepting answer by an argument. What is written is a list of texts.
use net_serve.Prelude.{
  ℕ, zero, suc, ◌+◌, ◌*◌, ◌-◌, Bool, true, false, not, ◌&&◌, Option, none, some, List, [], ◌∷◌,
  ◌++◌, ◌==◌, Bytes, leb, length, first_bytes, if◌then◌else◌,
}
use net_serve.Config.Store.{ℤ, pos, Item, get_int}
use net_serve.Config.Text.{before}
pub mod Handles
pub mod Clients
pub mod Closing
pub mod Enhanced
pub mod System
pub mod Received
pub mod Requests
mod Tests

pub record Config : Type 0 where
  pub port : ℤ
  pub host : Bytes
  pub backlog : ℕ
  pub max_connections : ℕ

abbrev pub any_host : Bytes
any_host = b'0' ∷ b'.' ∷ b'0' ∷ b'.' ∷ b'0' ∷ b'.' ∷ b'0' ∷ []

abbrev pub default_config : Config
default_config = record { port = pos 8080; host = any_host; backlog = 128; max_connections = 1000 }

-- The array of clients, as far as `client_count`, and its capacity.
pub record Table : Type 0 where
  pub clients : List ℕ
  pub capacity : ℕ

-- The private data, the handles of connections that are open, those for which the close callback is
-- due, whether the server's own handle is closed or closing, and what was written to which
-- connection.
pub record Server : Type 0 where
  pub config : Config
  pub table : Table
  pub listening : Bool
  pub server_closing : Bool
  pub alive : List ℕ
  pub closing : List ℕ
  pub sent : List (ℕ × Bytes)

-- With the answer of `realloc`.
unfoldable pub expand_client_capacity : Bool → Table → Option Table
expand_client_capacity ok t = if ok then some (record t { capacity = t.capacity * 2 }) else none

abbrev pub append_client : ℕ → Table → Table
append_client c t = record t { clients = t.clients ++ c ∷ [] }

unfoldable pub add_client : Bool → ℕ → Table → Option Table
unfolding expand_client_capacity
add_client ok c t =
    if leb t.capacity (length t.clients)
    then elim (expand_client_capacity ok t) [ none ↦ none | some u ↦ some (append_client c u) ]
    else some (append_client c t)

-- The first occurrence goes, and those behind it move down.
unfoldable pub remove_first : ℕ → List ℕ → List ℕ
remove_first c [] = []
remove_first c (x ∷ xs) = let rest = remove_first c xs in if x == c then xs else x ∷ rest

unfoldable pub has : ℕ → List ℕ → Bool
has c [] = false
has c (x ∷ xs) = let rest = has c xs in if x == c then true else rest

-- The flag is the return of 0.
unfoldable pub remove_client : ℕ → Table → Bool × Table
unfolding remove_first has
remove_client c t = (has c t.clients, record t { clients = remove_first c t.clients })

-- `uv_close` with `on_client_close`; `none` on a handle that is closing.
unfoldable pub close : ℕ → Server → Option Server
unfolding has
close c s = if has c s.closing then none else some (record s { closing = c ∷ s.closing })

-- The callback removes the client and frees the handle.
unfoldable pub on_client_close : ℕ → Server → Server
unfolding remove_client
on_client_close c s = record s {
  table = (remove_client c s.table).1;
  alive = remove_first c s.alive;
  closing = remove_first c s.closing;
}

abbrev pub init_server : Config → Server
init_server c = record {
  config = c;
  table = record { clients = []; capacity = 16 };
  listening = false;
  server_closing = false;
  alive = [];
  closing = [];
  sent = [];
}

-- `none` where an allocation fails.
unfoldable pub module_init : Bool → Bool → Option Server
module_init data_ok clients_ok =
    if data_ok && clients_ok then some (init_server default_config) else none

abbrev pub port_key : Bytes
port_key = b'n' ∷ b'e' ∷ b't' ∷ b'w' ∷ b'o' ∷ b'r' ∷ b'k' ∷ b'_' ∷ b'p' ∷ b'o' ∷ b'r' ∷ b't' ∷ []

abbrev with_port : ℤ → Server → Server
with_port p s = record s { config = record (s.config) { port = p } }

-- The port is the one of the configuration store, or else the one that is set. The flag is the return
-- of 0.
unfoldable pub module_start :
    {F : Type 0} → Bytes → List (Item F) → Bool → Bool → Server → Bool × Server
module_start key items bind_ok listen_ok s =
    let t = with_port (get_int key s.config.port items) s in
    if bind_ok && listen_ok then (true, record t { listening = true }) else (false, t)

-- The handle, once it is allocated and initialized.
abbrev pub opened : ℕ → Server → Server
opened c s = record s { alive = c ∷ s.alive }

abbrev pub or_close : ℕ → Server → Option Table → Option Server
or_close c s none = close c s
or_close c s (some t) = some (record s { table = t })

-- `handle` is the answer of `malloc`; `status_ok` says that `status` is not negative.
unfoldable pub on_new_connection : Bool → Option ℕ → Bool → Bool → Server → Option Server
unfolding add_client close
on_new_connection status_ok none accept_ok realloc_ok s = some s
on_new_connection status_ok (some c) accept_ok realloc_ok s =
    if status_ok
    then if accept_ok
      then or_close c (opened c s) (add_client realloc_ok c s.table)
      else close c (opened c s)
    else some s

-- `服务器已收到消息: ` in UTF-8.
abbrev pub received : Bytes
received =
    230 ∷ 156 ∷ 141 ∷ 229 ∷ 138 ∷ 161 ∷ 229 ∷ 153 ∷ 168 ∷ 229 ∷ 183 ∷ 178 ∷ 230 ∷ 148 ∷ 182 ∷ 229
    ∷ 136 ∷ 176 ∷ 230 ∷ 182 ∷ 136 ∷ 230 ∷ 129 ∷ 175 ∷ 58 ∷ 32 ∷ []

-- What `nread` of `on_read` says: bytes, nothing, or an end or an error.
pub data Read : Type 0 where
  bytes : Bytes → Read
  nothing : Read
  broken : Read

-- `snprintf` cuts the reply off, and `%.*s` ends at a 0 byte.
unfoldable pub on_read : Bool → ℕ → Read → Server → Option Server
unfolding close first_bytes before
on_read request_ok c (bytes b) s = some (
    if request_ok
    then record s { sent = (c, first_bytes 255 (received ++ before 0 b)) ∷ s.sent }
    else s)
on_read request_ok c nothing s = some s
on_read request_ok c broken s = close c s

unfoldable pub close_all : List ℕ → Server → Option Server
unfolding close
close_all [] s = some s
close_all (c ∷ cs) s = elim (close c s) [ none ↦ none | some t ↦ close_all cs t ]

-- `uv_close` on the server's own handle comes last.
abbrev pub close_server : Server → Option Server
close_server s =
    if s.server_closing then none else some (record s { listening = false; server_closing = true })

unfoldable pub module_stop : Server → Option Server
unfolding close_all
module_stop s = elim (close_all s.table.clients s) [ none ↦ none | some t ↦ close_server t ]

unfoldable pub set_config : Config → Server → Server
set_config c s = record s { config = c }

unfoldable pub get_client_count : Option Server → ℕ
get_client_count none = 0
get_client_count (some s) = length s.table.clients
