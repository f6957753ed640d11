-- ===== src/Embedded/Transport/Loop.antt =====
-- crates/embedded/src/lib.rs: the loop over the requests of the buffer ends.
use ferro_http.Http.Request.{Request, Result, ok, err, panic, out_of_fuel}
use ferro_http.Base.{
  ℕ, zero, suc, ◌+◌, ◌*◌, ◌<◌, ◌≡◌, refl, ◌≢◌, Bool, true, false, Option, none, some, ◌++◌, arith,
  length, Bytes,
}
use ferro_http.Http.Request.Parse.{
  parse_with, Parsed, done, need_more, expect_action, ExpectAction, nothing, proceed, unsupported,
}
use ferro_http.Http.Request.Parse.Bounds.{parse_with-IsBounded}
use ferro_http.Http.Request.Parse.Total.{parse_with-ne-out_of_fuel}
use ferro_http.Conn
use ferro_http.Conn.{Service, Connection, Step, write, step, step_on, step_partial, step_complete}
use ferro_http.Conn.Interim.{unsent, step-interim}
use ferro_http.Http.Request.Parse.Total.{expect_action-ne-none}
use ferro_http.Conn.Pipeline.{step_drains}
use ferro_http.Embedded.Transport.{ConnState, exhausted, turn, serve_buffered, fuel_for}

-- What bounds the turns of the loop: the bytes left, and the interim response that is left.
abbrev pub turns_left : Connection → ℕ
turns_left c = 2 * length c.buf + unsent c.continue_sent

turn_progress :
    (service : Service) (c : Connection) (now : ℕ) (bytes : Bytes)
    → (step service c now).1 ≡ write bytes false
    → turns_left (step service c now).0 < turns_left c
turn_progress service c now bytes open_write = at_result (parse_with c.buf c.max_body) refl
  where
    incomplete :
        ((r : Request) (n : ℕ) → parse_with c.buf c.max_body ≢ ok (done r n))
        → turns_left (step service c now).0 < turns_left c
    incomplete none_done =
        let (same, asked, unsent_yet, after) =
          step-interim service c now bytes none_done open_write in
        rw after (rw unsent_yet (omega arith))

    at_result :
        (m : Result Parsed)
        → parse_with c.buf c.max_body ≡ m
        → turns_left (step service c now).0 < turns_left c
    at_result (ok (done r n)) eq =
        let (front, shorter, cleared) = step_drains service c now r n eq in
        let bounded = parse_with-IsBounded c.buf c.max_body r n eq in
        rw cleared (omega (arith, shorter, bounded.head_in))
    at_result (ok need_more) eq = incomplete (λ r n e. cc (eq, e))
    at_result (err e) eq = incomplete (λ r n e. cc (eq, e))
    at_result panic eq = incomplete (λ r n e. cc (eq, e))
    at_result out_of_fuel eq = incomplete (λ r n e. cc (eq, e))

step_partial-ne-out_of_fuel :
    (c : Connection) (now : ℕ) (e : Option ExpectAction) (sent : Bool)
    → e ≢ none
    → (step_partial c now e sent).1 ≢ Conn.Step.out_of_fuel
unfolding step_partial
step_partial-ne-out_of_fuel c now none sent ends h = ends refl
step_partial-ne-out_of_fuel c now (some proceed) false ends h = cc
step_partial-ne-out_of_fuel c now (some proceed) true ends h = cc
step_partial-ne-out_of_fuel c now (some unsupported) sent ends h = cc
step_partial-ne-out_of_fuel c now (some nothing) sent ends h = cc

step-ne-out_of_fuel :
    (service : Service) (c : Connection) (now : ℕ) → (step service c now).1 ≢ Conn.Step.out_of_fuel
unfolding step step_on step_complete
step-ne-out_of_fuel service c now =
    at_result (parse_with c.buf c.max_body) (parse_with-ne-out_of_fuel c.buf c.max_body)
  where
    at_result :
        (m : Result Parsed) → m ≢ out_of_fuel → (step_on service c now m).1 ≢ Conn.Step.out_of_fuel
    at_result (ok need_more) ne =
        step_partial-ne-out_of_fuel c now (expect_action c.buf) c.continue_sent
          (expect_action-ne-none c.buf)
    at_result (ok (done r n)) ne = λ h. cc
    at_result (err e) ne = λ h. cc
    at_result panic ne = λ h. cc
    at_result out_of_fuel ne = λ h. ne refl

serve_buffered-ne-exhausted :
    (service : Service) (now fuel : ℕ) (st : ConnState)
    → turns_left st.conn < fuel
    → (serve_buffered service now fuel st).1 ≢ exhausted
unfolding serve_buffered
serve_buffered-ne-exhausted service now zero st enough = absurd (omega (arith, enough))
serve_buffered-ne-exhausted service now (suc fuel) st enough =
    at_step (step service st.conn now).0 (step service st.conn now).1
      (λ eq. step-ne-out_of_fuel service st.conn now eq)
      (λ bytes eq.
        serve_buffered-ne-exhausted service now fuel
          (record st { conn = (step service st.conn now).0; out = st.out ++ bytes })
          (omega (arith, enough, turn_progress service st.conn now bytes eq)))
  where
    at_step :
        (c : Connection) (s : Step)
        → s ≢ Conn.Step.out_of_fuel
        → ((bytes : Bytes)
            → s ≡ write bytes false
            → (serve_buffered service now fuel (record st { conn = c; out = st.out ++ bytes })).1
              ≢ exhausted)
        → (turn (serve_buffered service now fuel) st c s).1 ≢ exhausted
    at_step c Conn.Step.need_more ne later = λ h. cc
    at_step c (write bytes true) ne later = λ h. cc
    at_step c (write bytes false) ne later = later bytes refl
    at_step c Conn.Step.panicked ne later = λ h. cc
    at_step c Conn.Step.out_of_fuel ne later = λ h. ne refl

-- The fuel of a poll is enough: its loop over the requests of the buffer ends, for every service and
-- every buffer.
pub serve_buffered_total :
    (service : Service) (now : ℕ) (st : ConnState)
    → (serve_buffered service now (fuel_for st) st).1 ≢ exhausted
serve_buffered_total service now st =
    serve_buffered-ne-exhausted service now (fuel_for st) st (unsent_small st.conn.continue_sent)
  where
    unsent_small : (sent : Bool) → 2 * length st.conn.buf + unsent sent < fuel_for st
    unsent_small true = omega arith
    unsent_small false = omega arith
