-- ===== src/Tests/Transport.antt =====
-- Runs of the embedded transport over a socket that takes so many bytes at a time.
use ferro_http.Http.Request.{err, malformed_request_line}
use ferro_http.Base.{
  ℕ, ◌-◌, min, ◌≡◌, refl, ◌≢◌, true, false, not, none, some, [], ◌++◌, ◌==◌, length, take, Bytes,
  codes,
}
use ferro_http.Http.Status.{status}
use ferro_http.Http.Request.Parse.{parse_with}
use ferro_http.Http.Response.{text}
use ferro_http.Conn.{Service}
use ferro_http.Embedded.Transport.{Tcp, ConnState, exhausted, serve_buffered, fuel_for, serve}
use ferro_http.Embedded.Transport.Loop.{serve_buffered_total}
use ferro_http.Embedded.Transport.Order.{Records, stream, responses, serve-stream}
use ferro_http.Embedded.Transport.Stall.{polls, copies, error_bytes, stalled_polls}
use ferro_http.Tests.Runs.{parsing}

-- A socket as the bytes that it accepted and the room of its window.
abbrev Wire : Type 0
Wire = Bytes × ℕ

abbrev wire : Tcp Wire
wire = record {
  is_open = λ s. true;
  listen = λ port s. some s;
  can_recv = λ s. false;
  recv = λ s. none;
  can_send = λ s. not (s.1 == 0);
  send_slice = λ out s.
      some (min s.1 (length out), (s.0 ++ take (min s.1 (length out)) out, s.1 - length out));
  close = λ s. s;
  abort = λ s. s;
}

wire-Records : Records wire (λ s. s.0)
wire-Records = record { takes_front = λ out s s' n e. cc e; close_keeps = λ s. refl }

abbrev plain : Service
plain request ctx = text (status 200) (codes "ok")

abbrev bad_state : ConnState
bad_state = record {
  conn = record {
    buf = codes "x\r\n\r\n";
    policy = record { security_headers = false; has_clock = false };
    max_body = 100;
    peer = [];
    continue_sent = false;
  };
  out = [];
  close = false;
  has_clock = false;
}

parse-bad_state : parse_with bad_state.conn.buf 100 ≡ err malformed_request_line
unfolding parsing
parse-bad_state = refl

serve_buffered_total_example : (serve_buffered plain 0 (fuel_for bad_state) bad_state).1 ≢ exhausted
serve_buffered_total_example = serve_buffered_total plain 0 bad_state

serve-stream_example :
    stream wire plain (λ s. s.0) wire-Records (serve wire plain 0 ([], 7) bad_state)
    ≡ responses plain 0 (fuel_for bad_state) bad_state.conn
serve-stream_example = serve-stream wire plain (λ s. s.0) wire-Records 0 ([], 7) bad_state

stalled_polls_example :
    (polls wire plain 80 0 3 ([], 0) bad_state).1.out
    ≡ copies 3 (error_bytes malformed_request_line 0 bad_state.conn)
stalled_polls_example =
    stalled_polls wire plain 80 0 ([], 0) refl refl refl malformed_request_line 3 bad_state
      parse-bad_state
