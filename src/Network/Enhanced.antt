-- ===== src/Network/Enhanced.antt =====
-- src/net/enhanced_network_module.c: the server of the network module with requests that go to the
-- thread pool. Its callbacks for connections are those of the other module, word for word.
use net_serve.Prelude.{
  ℕ, ◌+◌, ◌%◌, Bool, true, ◌&&◌, Option, none, some, [], ◌∷◌, ◌++◌, Bytes, length, first_bytes,
  if◌then◌else◌,
}
use net_serve.Config.Store.{pos}
use net_serve.Config.File.{print_int}
use net_serve.Config.Text.{before}
use net_serve.Network.{
  Server, Read, bytes, nothing, broken, default_config, init_server, close, on_client_close,
  on_new_connection, module_stop,
}
use net_serve.Threadpool.{Pool, Attempt, blocked, refused, accepted, submit_work}

-- `request_context_t`.
pub record Request : Type 0 where
  pub client : ℕ
  pub data' : Bytes
  pub size : ℕ

pub record Enhanced : Type 0 where
  pub server : Server
  pub enable_threadpool : Bool
  pub total_requests : ℕ
  pub active_requests : ℕ

unfoldable pub enhanced_init : Bool → Bool → Option Enhanced
enhanced_init data_ok clients_ok =
    if data_ok && clients_ok
    then some (record {
      server = init_server default_config;
      enable_threadpool = true;
      total_requests = 0;
      active_requests = 0;
    })
    else none

abbrev pub with_server : Enhanced → Option Server → Option Enhanced
with_server n none = none
with_server n (some s) = some (record n { server = s })

unfoldable pub enhanced_connection : Bool → Option ℕ → Bool → Bool → Enhanced → Option Enhanced
unfolding on_new_connection
enhanced_connection status_ok handle accept_ok realloc_ok n =
    with_server n (on_new_connection status_ok handle accept_ok realloc_ok n.server)

unfoldable pub enhanced_close : ℕ → Enhanced → Enhanced
unfolding on_client_close
enhanced_close c n = record n { server = on_client_close c n.server }

unfoldable pub enhanced_stop : Enhanced → Option Enhanced
unfolding module_stop
enhanced_stop n = with_server n (module_stop n.server)

-- `handle_response` writes the text, where memory suffices.
unfoldable pub handle_response : Bool → ℕ → Bytes → Server → Server
handle_response ok c text s = if ok then record s { sent = (c, text) ∷ s.sent } else s

-- `线程池处理完成，请求大小: `, ` 字节，处理时间: ` and ` ms` in UTF-8.
abbrev pub done_text : Bytes
done_text =
    231 ∷ 186 ∷ 191 ∷ 231 ∷ 168 ∷ 139 ∷ 230 ∷ 177 ∷ 160 ∷ 229 ∷ 164 ∷ 132 ∷ 231 ∷ 144 ∷ 134 ∷ 229
    ∷ 174 ∷ 140 ∷ 230 ∷ 136 ∷ 144 ∷ 239 ∷ 188 ∷ 140 ∷ 232 ∷ 175 ∷ 183 ∷ 230 ∷ 177 ∷ 130 ∷ 229 ∷ 164
    ∷ 167 ∷ 229 ∷ 176 ∷ 143 ∷ 58 ∷ 32 ∷ []

abbrev pub time_text : Bytes
time_text =
    32 ∷ 229 ∷ 173 ∷ 151 ∷ 232 ∷ 138 ∷ 130 ∷ 239 ∷ 188 ∷ 140 ∷ 229 ∷ 164 ∷ 132 ∷ 231 ∷ 144 ∷ 134
    ∷ 230 ∷ 151 ∷ 182 ∷ 233 ∷ 151 ∷ 180 ∷ 58 ∷ 32 ∷ []

abbrev pub unit_text : Bytes
unit_text = 32 ∷ b'm' ∷ b's' ∷ []

-- With what `rand` returns.
unfoldable pub process_request : Bool → ℕ → Request → Server → Server
unfolding handle_response first_bytes print_int
process_request ok random r s =
    handle_response ok r.client
      (first_bytes 511 (
        done_text
        ++ (print_int (pos r.size)
            ++ (time_text ++ (print_int (pos (random % 100 + 10)) ++ unit_text)))))
      s

-- `同步处理完成，消息: ` in UTF-8.
abbrev pub direct_text : Bytes
direct_text =
    229 ∷ 144 ∷ 140 ∷ 230 ∷ 173 ∷ 165 ∷ 229 ∷ 164 ∷ 132 ∷ 231 ∷ 144 ∷ 134 ∷ 229 ∷ 174 ∷ 140 ∷ 230
    ∷ 136 ∷ 144 ∷ 239 ∷ 188 ∷ 140 ∷ 230 ∷ 182 ∷ 136 ∷ 230 ∷ 129 ∷ 175 ∷ 58 ∷ 32 ∷ []

-- How the callback goes up to `count_request`: it is asleep in `threadpool_submit_work`, calls
-- `uv_close` a second time, or comes to the states of the module and of the pool, with the request
-- that the pool took.
pub data Outcome : Type 0 where
  sleeps : Outcome
  aborts : Outcome
  goes : Option Request → Enhanced → Pool Request → Outcome

-- The answers of the three calls of `malloc`, and of the one for a response.
pub record Memory : Type 0 where
  pub context_ok : Bool
  pub data_ok : Bool
  pub item_ok : Bool
  pub response_ok : Bool

abbrev request_of : ℕ → Bytes → Request
request_of c b = record { client = c; data' = b; size = length b }

abbrev pub submitted : Request → Enhanced → Pool Request → Attempt Request → Outcome
submitted r n p blocked = sleeps
submitted r n p refused = goes none n p
submitted r n p (accepted q) = goes (some r) n q

abbrev pub after_close : Enhanced → Pool Request → Option Server → Outcome
after_close n p none = aborts
after_close n p (some s) = goes none (record n { server = s }) p

unfoldable pub enhanced_read : Memory → ℕ → Read → Enhanced → Pool Request → Outcome
unfolding close handle_response first_bytes before
enhanced_read m c (bytes b) n p =
    if n.enable_threadpool
    then if m.context_ok && m.data_ok
      then submitted (request_of c b) n p (submit_work (some (request_of c b)) m.item_ok p)
      else goes none n p
    else goes none
        (record n {
          server =
              handle_response m.response_ok c (first_bytes 255 (direct_text ++ before 0 b))
                n.server;
        })
        p
enhanced_read m c nothing n p = goes none n p
enhanced_read m c broken n p = after_close n p (close c n.server)

-- What `on_read` does once `threadpool_submit_work` has returned 0, which workers may precede.
unfoldable pub count_request : Enhanced → Enhanced
count_request n = record n {
  total_requests = n.total_requests + 1;
  active_requests = n.active_requests + 1;
}
