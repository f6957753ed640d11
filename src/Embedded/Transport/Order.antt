-- ===== src/Embedded/Transport/Order.antt =====
-- crates/embedded/src/lib.rs: the socket gets the responses in order, whole.
use ferro_http.Base.{
  ℕ, zero, suc, ◌≡◌, refl, sym, ap, ◌∙◌, Bool, true, false, not, ◌&&◌, Option, none, some, [], ◌++◌,
  append_assoc, append-nil, if◌then◌else◌, take, drop, take-append-drop, Bytes, is_empty,
}
use ferro_http.Conn
use ferro_http.Conn.{Service, Connection, Step, write, step}
use ferro_http.Embedded.Transport.{
  Tcp, ConnState, Pumped, done, panic, exhausted, failed, send_error, turn, serve_buffered,
  fuel_for, finish_close, flush, after_serving, serve,
}

-- The bytes that the steps of the loop write, one response behind the other.
unfoldable pub responses : Service → ℕ → ℕ → Connection → Bytes
responses service now zero c = []
responses service now (suc fuel) c =
    let later = responses service now fuel (step service c now).0 in
    elim (step service c now).1 [
      | write bytes true ↦ bytes
      | write bytes false ↦ bytes ++ later
      | _ ↦ []
    ]

serve_buffered-responses :
    (service : Service) (now fuel : ℕ) (st : ConnState)
    → (serve_buffered service now fuel st).0.out ≡ st.out ++ responses service now fuel st.conn
unfolding serve_buffered responses
serve_buffered-responses service now zero st = sym (append-nil st.out)
serve_buffered-responses service now (suc fuel) st =
    at_step (step service st.conn now).0 (step service st.conn now).1 (λ out.
      serve_buffered-responses service now fuel
        (record st { conn = (step service st.conn now).0; out = out }))
  where
    at_step :
        (c : Connection) (s : Step)
        → ((out : Bytes)
            → (serve_buffered service now fuel (record st { conn = c; out = out })).0.out
              ≡ out ++ responses service now fuel c)
        → (turn (serve_buffered service now fuel) st c s).0.out
          ≡ st.out ++ elim s [
            | write bytes true ↦ bytes
            | write bytes false ↦ bytes ++ responses service now fuel c
            | _ ↦ []
          ]
    at_step c Conn.Step.need_more later = sym (append-nil st.out)
    at_step c (write bytes true) later = refl
    at_step c (write bytes false) later =
        later (st.out ++ bytes) ∙ append_assoc st.out bytes (responses service now fuel c)
    at_step c Conn.Step.panicked later = sym (append-nil st.out)
    at_step c Conn.Step.out_of_fuel later = sym (append-nil st.out)

-- What a socket accepted to send, in order: `send_slice` takes a front of the bytes that it is
-- given, and closing sends nothing.
pub record Records {S : Type 0} (tcp : Tcp S) (sent : S → Bytes) : Type 0 where
  pub takes_front :
      (out : Bytes) (s s' : S) (n : ℕ)
      → tcp.send_slice out s ≡ some (n, s')
      → sent s' ≡ sent s ++ take n out
  pub close_keeps : (s : S) → sent (tcp.close s) ≡ sent s

module _ {S : Type 0} (tcp : Tcp S) (service : Service) (sent : S → Bytes)
    (law : Records tcp sent) where
  -- The bytes that the socket accepted, then those that wait.
  abbrev pub stream : S × ConnState × Pumped → Bytes
  stream (socket, st, ended) = sent socket ++ st.out

  finish_close-stream :
      (socket : S) (st : ConnState)
      → stream (finish_close tcp service socket st) ≡ sent socket ++ st.out
  unfolding finish_close
  finish_close-stream socket st = at_test (st.close && is_empty st.out)
    where
      at_test :
          (b : Bool)
          → stream (
              if b
              then (tcp.close socket, record st { close = false }, done)
              else (socket, st, done))
            ≡ sent socket ++ st.out
      at_test true = ap (λ x. x ++ st.out) (law.close_keeps socket)
      at_test false = refl

  flush-stream :
      (socket : S) (st : ConnState) → stream (flush tcp service socket st) ≡ sent socket ++ st.out
  unfolding flush
  flush-stream socket st = at_test (not (is_empty st.out) && tcp.can_send socket)
    where
      joined :
          (n : ℕ) (s : S)
          → sent s ≡ sent socket ++ take n st.out
          → sent s ++ drop n st.out ≡ sent socket ++ st.out
      joined n s e =
          ap (λ x. x ++ drop n st.out) e
          ∙ append_assoc (sent socket) (take n st.out) (drop n st.out)
          ∙ ap (λ x. sent socket ++ x) (take-append-drop n st.out)

      at_sent :
          (r : Option (ℕ × S))
          → tcp.send_slice st.out socket ≡ r
          → stream (elim r [
            | none ↦ (socket, st, failed send_error)
            | some (n, s) ↦ finish_close tcp service s (record st { out = drop n st.out })
          ])
            ≡ sent socket ++ st.out
      at_sent none e = refl
      at_sent (some (n, s)) e =
          finish_close-stream s (record st { out = drop n st.out })
          ∙ joined n s (law.takes_front st.out socket s n e)

      at_test :
          (b : Bool)
          → stream (
              if b
              then elim (tcp.send_slice st.out socket) [
                | none ↦ (socket, st, failed send_error)
                | some (n, s) ↦ finish_close tcp service s (record st { out = drop n st.out })
              ]
              else finish_close tcp service socket st)
            ≡ sent socket ++ st.out
      at_test true = at_sent (tcp.send_slice st.out socket) refl
      at_test false = finish_close-stream socket st

  -- Whatever a poll serves and however much the socket takes, the bytes that the socket accepted,
  -- followed by those that wait, are those of before and then the responses of this poll, in order
  -- and whole: no byte is lost, doubled or moved. The socket takes a front of what it is given.
  pub serve-stream :
      (now : ℕ) (socket : S) (st : ConnState)
      → stream (serve tcp service now socket st)
        ≡ (sent socket ++ st.out) ++ responses service now (fuel_for st) st.conn
  unfolding serve
  serve-stream now socket st =
      at_end (serve_buffered service now (fuel_for st) st).0
        (serve_buffered service now (fuel_for st) st).1
      ∙ ap (λ x. sent socket ++ x) (serve_buffered-responses service now (fuel_for st) st)
      ∙ sym (append_assoc (sent socket) st.out (responses service now (fuel_for st) st.conn))
    where
      at_end :
          (st' : ConnState) (ended : Pumped)
          → stream (after_serving tcp service socket (st', ended)) ≡ sent socket ++ st'.out
      at_end st' done = flush-stream socket st'
      at_end st' panic = refl
      at_end st' exhausted = refl
      at_end st' (failed e) = refl
