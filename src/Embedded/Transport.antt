-- ===== src/Embedded/Transport.antt =====
-- crates/embedded/src/lib.rs: one poll of a TCP socket of smoltcp. The socket is a parameter.
pub mod Loop
pub mod Order
pub mod Stall
use ferro_http.Base.{
  ℕ, zero, suc, ◌+◌, ◌-◌, ◌*◌, ◌/◌, ◌%◌, ◌^◌, ◌≤◌, ◌<◌, min, ◌≡◌, refl, sym, ap, ◌∙◌, ◌≢◌, ◌↔◌, ◌⊎◌,
  inl, inr, Bool, true, false, not, ◌&&◌, ◌||◌, Option, none, some, List, [], ◌∷◌, ◌++◌, map,
  append_assoc, append-nil, arith, ltb, leb, ◌==◌, if◌then◌else◌, ltb→lt, lt→ltb, leb→le, ==_iff,
  Bool-cases, Option-cases, length, get_elem?, get_or, replicate, take, drop, length-append,
  length-take, length-drop, take-append-drop, take-append, drop-append, Bytes, codes, within,
  bytes_eq, bytes_eq_iff, is_empty, all, any, filter, position, find, u64_max, u32_max,
  is_ascii_digit, is_ascii_alphabetic, is_ascii_alphanumeric, eq_ignore_ascii_case, starts_with,
  strip_prefix, split_once, split, utf8_valid, trim, parse_digits, parse_uint, dec_digits,
  print_dec, to_ascii_lowercase, wrapping_add, print_hex, cons_head, hex_digits,
}
use ferro_http.Conn.{
  Service, Connection, Step, need_more, write, panicked, out_of_fuel, new_connection, set_clock,
  feed, step,
}

-- Each stands for the variant of that name; smoltcp's own error inside is left out.
pub data TransportError : Type 0 where
  listen_error recv_error send_error : TransportError

-- What the transport calls of a `tcp::Socket`: each operation that can fail returns `none` where
-- smoltcp returns an error.
pub record Tcp (S : Type 0) : Type 0 where
  pub is_open : S → Bool
  pub listen : ℕ → S → Option S
  pub can_recv : S → Bool
  pub recv : S → Option (Bytes × S)
  pub can_send : S → Bool
  pub send_slice : Bytes → S → Option (ℕ × S)
  pub close : S → S
  pub abort : S → S

pub record ConnState : Type 0 where
  pub conn : Connection
  pub out : Bytes
  pub close : Bool
  pub has_clock : Bool

-- `ConnState::with_clock`
unfoldable pub with_clock : Bool → ConnState
with_clock has_clock = record {
  conn = set_clock has_clock new_connection;
  out = [];
  close = false;
  has_clock = has_clock;
}

-- `ConnState::new`
unfoldable pub new_state : ConnState
new_state = with_clock true

unfoldable pub reset : ConnState → ConnState
reset st = record st { conn = set_clock st.has_clock new_connection; out = []; close = false }

-- How a poll ends: as the source returns, by a panic of a step, or by the fuel of the model.
pub data Pumped : Type 0 where
  done panic exhausted : Pumped
  failed : TransportError → Pumped

-- One turn of the loop over the complete requests of the buffer, with what the next turns do.
abbrev pub turn :
    (ConnState → ConnState × Pumped) → ConnState → Connection → Step → ConnState × Pumped
turn next st c need_more = (record st { conn = c }, done)
turn next st c (write bytes true) =
    (record st { conn = c; out = st.out ++ bytes; close = true }, done)
turn next st c (write bytes false) = next (record st { conn = c; out = st.out ++ bytes })
turn next st c panicked = (record st { conn = c }, panic)
turn next st c out_of_fuel = (record st { conn = c }, exhausted)

unfoldable pub serve_buffered : Service → ℕ → ℕ → ConnState → ConnState × Pumped
serve_buffered service now zero st = (st, exhausted)
serve_buffered service now (suc fuel) st =
    turn (serve_buffered service now fuel) st (step service st.conn now).0
      (step service st.conn now).1

-- Two turns for each byte of the buffer, and two more.
abbrev pub fuel_for : ConnState → ℕ
fuel_for st = suc (suc (2 * length st.conn.buf))

module _ {S : Type 0} (tcp : Tcp S) (service : Service) where
  -- The last `if`: the closing response is flushed.
  unfoldable pub finish_close : S → ConnState → S × ConnState × Pumped
  finish_close socket st =
      if st.close && is_empty st.out
      then (tcp.close socket, record st { close = false }, done)
      else (socket, st, done)

  -- The flush and what follows it.
  unfoldable pub flush : S → ConnState → S × ConnState × Pumped
  flush socket st =
      if not (is_empty st.out) && tcp.can_send socket
      then elim (tcp.send_slice st.out socket) [
        | none ↦ (socket, st, failed send_error)
        | some (sent, socket') ↦ finish_close socket' (record st { out = drop sent st.out })
      ]
      else finish_close socket st

  abbrev pub after_serving : S → ConnState × Pumped → S × ConnState × Pumped
  after_serving socket (st, done) = flush socket st
  after_serving socket (st, ended) = (socket, st, ended)

  -- The loop over the requests and what follows it.
  unfoldable pub serve : ℕ → S → ConnState → S × ConnState × Pumped
  serve now socket st = after_serving socket (serve_buffered service now (fuel_for st) st)

  unfoldable pub receive : ℕ → S → ConnState → S × ConnState × Pumped
  receive now socket st =
      if tcp.can_recv socket
      then elim (tcp.recv socket) [
        | none ↦ (socket, st, failed recv_error)
        | some (bytes, socket') ↦ serve now socket' (record st { conn = feed bytes st.conn })
      ]
      else serve now socket st

  unfoldable pub pump_connection : ℕ → ℕ → S → ConnState → S × ConnState × Pumped
  pump_connection port now socket st =
      if not (tcp.is_open socket)
      then elim (tcp.listen port socket) [
        | none ↦ (socket, st, failed listen_error)
        | some socket' ↦ (socket', reset st, done)
      ]
      else receive now socket st

  -- What `serve_smoltcp` does with the end of a poll: an error aborts the connection.
  unfoldable pub pump_or_abort : ℕ → ℕ → S → ConnState → S × ConnState × Pumped
  pump_or_abort port now socket st =
      let (socket', st', ended) = pump_connection port now socket st in
      elim ended [ failed e ↦ (tcp.abort socket', reset st', done) | other ↦ (socket', st', other) ]
