-- ===== src/Embedded/Transport/Stall.antt =====
-- crates/embedded/src/lib.rs: polls of a connection whose request could not be parsed.
use ferro_http.Http.Request.{err, ParseError}
use ferro_http.Base.{
  ℕ, zero, suc, ◌≡◌, refl, sym, ◌∙◌, Bool, true, false, some, [], ◌∷◌, ◌++◌, append_assoc,
  append-nil, Bytes, is_empty,
}
use ferro_http.Http.Request.Parse.{parse_with}
use ferro_http.Http.Request.Scan.{find_subslice, window_position, crlf_crlf}
use ferro_http.Http.Response.{Response, serialize}
use ferro_http.Http.Response.Wire.{serialize_lines}
use ferro_http.Conn.{Service, Connection, write, step, step_on, error_response}
use ferro_http.Embedded.Transport.{
  Tcp, ConnState, done, serve_buffered, finish_close, flush, serve, receive, pump_connection,
}

-- The state after so many polls at one time.
unfoldable pub polls : {S : Type 0} → Tcp S → Service → ℕ → ℕ → ℕ → S → ConnState → S × ConnState
polls tcp service port now zero socket st = (socket, st)
polls tcp service port now (suc k) socket st =
    let (socket', st', ended) = pump_connection tcp service port now socket st in
    polls tcp service port now k socket' st'

-- So many copies of some bytes.
unfoldable pub copies : ℕ → Bytes → Bytes
copies zero bytes = []
copies (suc k) bytes = bytes ++ copies k bytes

-- What one more step writes for a buffer that cannot be parsed.
abbrev pub error_bytes : ParseError → ℕ → Connection → Bytes
error_bytes e now c = serialize (error_response e now c.policy) false

step_error :
    (service : Service) (c : Connection) (now : ℕ) (e : ParseError)
    → parse_with c.buf c.max_body ≡ err e
    → step service c now ≡ (c, write (error_bytes e now c) true)
unfolding step step_on
step_error service c now e failed = rw (failed, step) refl

serialize_nonempty : (r : Response) (head_only : Bool) → is_empty (serialize r head_only) ≡ false
unfolding find_subslice window_position
serialize_nonempty r head_only =
    let (end, found, lines, body) = serialize_lines r head_only in
    found_nonempty (serialize r head_only) end found
  where
    found_nonempty :
        (xs : Bytes) (end : ℕ) → find_subslice xs crlf_crlf ≡ some end → is_empty xs ≡ false
    found_nonempty [] end e = cc
    found_nonempty (x ∷ xs) end e = refl

is_empty-append : (a b : Bytes) → is_empty b ≡ false → is_empty (a ++ b) ≡ false
is_empty-append [] b h = h
is_empty-append (x ∷ a) b h = refl

module _ {S : Type 0} (tcp : Tcp S) (service : Service) (port now : ℕ) (socket : S)
    (opened : tcp.is_open socket ≡ true) (silent : tcp.can_recv socket ≡ false)
    (window : tcp.can_send socket ≡ false) (e : ParseError) where
  poll_error :
      (st : ConnState)
      → parse_with st.conn.buf st.conn.max_body ≡ err e
      → pump_connection tcp service port now socket st
        ≡ (socket, record st { out = st.out ++ error_bytes e now st.conn; close = true }, done)
  unfolding pump_connection receive serve serve_buffered flush finish_close
  poll_error st bad =
      rw (opened, pump_connection)
        (rw (silent, receive)
          (rw (step_error service st.conn now e bad) (
            rw window (
              rw
                (is_empty-append st.out (error_bytes e now st.conn)
                  (serialize_nonempty (error_response e now st.conn.policy) false))
                refl))))

  -- While the socket is open, has nothing to receive and cannot send, each poll of a connection whose
  -- buffer cannot be parsed queues one more copy of the error response: after `k` polls there are `k`
  -- of them, and nothing bounds the queue.
  pub stalled_polls :
      (k : ℕ) (st : ConnState)
      → parse_with st.conn.buf st.conn.max_body ≡ err e
      → (polls tcp service port now k socket st).1.out
        ≡ st.out ++ copies k (error_bytes e now st.conn)
  unfolding polls copies
  stalled_polls zero st bad = sym (append-nil st.out)
  stalled_polls (suc k) st bad =
      rw (poll_error st bad, polls)
        (stalled_polls k (record st { out = st.out ++ error_bytes e now st.conn; close = true }) bad
          ∙ append_assoc st.out (error_bytes e now st.conn) (copies k (error_bytes e now st.conn)))
