-- ===== src/Conn/Interim.antt =====
-- The interim response: at most one for each request.
use ferro_http.Http.Request.{Request, Result, ok, err, panic}
use ferro_http.Base.{
  ℕ, suc, ◌+◌, ◌≤◌, ◌≡◌, refl, ◌≢◌, Bool, true, false, some, List, [], ◌∷◌, arith, Bytes,
}
use ferro_http.Http.Request.Parse.{Parsed, done, parse_with, proceed, expect_action}
use ferro_http.Conn.{
  Service, Step, need_more, write, panicked, Connection, feed, interim, step_partial, step_on, step,
}

-- What happens to a connection: bytes arrive, or the profile calls `step` at a time.
pub data Event : Type 0 where
  received : Bytes → Event
  stepped : ℕ → Event

-- The run of a connection over events, with the results of its steps in order.
pub run : Service → Connection → List Event → Connection × List Step
run service c [] = (c, [])
run service c (received bytes ∷ es) = run service (feed bytes c) es
run service c (stepped now ∷ es) =
    let (c', s) = step service c now in let (last, out) = run service c' es in (last, s ∷ out)

-- No step of the run finds a complete request.
abbrev pub NoRequest : Service → Connection → List Event → Type 0
NoRequest service c [] = Unit
NoRequest service c (received bytes ∷ es) = NoRequest service (feed bytes c) es
NoRequest service c (stepped now ∷ es) =
    ((r : Request) (n : ℕ) → parse_with c.buf c.max_body ≢ ok (done r n))
    × NoRequest service (step service c now).0 es

-- The results that leave the connection open and write something.
abbrev pub open_writes : List Step → ℕ
open_writes [] = 0
open_writes (write bytes false ∷ out) = suc (open_writes out)
open_writes (_ ∷ out) = open_writes out

abbrev pub unsent : Bool → ℕ
unsent true = 0
unsent false = 1

-- A step with no complete request writes at most what the flag still allows.
step_allowance :
    (service : Service) (c : Connection) (now : ℕ)
    → ((r : Request) (n : ℕ) → parse_with c.buf c.max_body ≢ ok (done r n))
    → open_writes ((step service c now).1 ∷ []) + unsent (step service c now).0.continue_sent
      ≤ unsent c.continue_sent
unfolding step step_on step_partial
step_allowance service c now none_done = at_result (parse_with c.buf c.max_body) none_done
  where
    at_result :
        (m : Result Parsed)
        → ((r : Request) (n : ℕ) → m ≢ ok (done r n))
        → open_writes ((step_on service c now m).1 ∷ [])
            + unsent (step_on service c now m).0.continue_sent
          ≤ unsent c.continue_sent
    at_result (ok Parsed.need_more) h = ground arith
    at_result (ok (done r n)) h = absurd (h r n refl)
    at_result (err e) h = omega arith
    at_result panic h = omega arith
    at_result Result.out_of_fuel h = omega arith

open_writes-cons :
    (s : Step) (out : List Step) → open_writes (s ∷ out) ≡ open_writes (s ∷ []) + open_writes out
open_writes-cons need_more out = omega arith
open_writes-cons (write bytes false) out = omega arith
open_writes-cons (write bytes true) out = omega arith
open_writes-cons panicked out = omega arith
open_writes-cons Step.out_of_fuel out = omega arith

-- Over any arrivals and steps in which no request completes, the connection writes at most once
-- without asking to be closed, and not at all if the interim response was sent before.
pub interim_once :
    (service : Service) (c : Connection) (es : List Event)
    → NoRequest service c es
    → open_writes (run service c es).1 ≤ unsent c.continue_sent
unfolding run
interim_once service c [] h = omega arith
interim_once service c (received bytes ∷ es) h = interim_once service (feed bytes c) es h
interim_once service c (stepped now ∷ es) h = omega (
  arith,
  step_allowance service c now h.0,
  interim_once service (step service c now).0 es h.1,
  open_writes-cons (step service c now).1 (run service (step service c now).0 es).1,
)

-- That one write is the interim response, when the head that has arrived asks for it.
pub step-interim :
    (service : Service) (c : Connection) (now : ℕ) (bytes : Bytes)
    → ((r : Request) (n : ℕ) → parse_with c.buf c.max_body ≢ ok (done r n))
    → (step service c now).1 ≡ write bytes false
    → (bytes ≡ interim)
      × (expect_action c.buf ≡ some proceed)
      × (c.continue_sent ≡ false)
      × ((step service c now).0 ≡ record c { continue_sent = true })
unfolding step step_on step_partial
step-interim service c now bytes none_done e = at_result (parse_with c.buf c.max_body) none_done e
  where
    at_result :
        (m : Result Parsed)
        → ((r : Request) (n : ℕ) → m ≢ ok (done r n))
        → (step_on service c now m).1 ≡ write bytes false
        → (bytes ≡ interim)
          × (expect_action c.buf ≡ some proceed)
          × (c.continue_sent ≡ false)
          × ((step_on service c now m).0 ≡ record c { continue_sent = true })
    at_result (ok Parsed.need_more) h e = ground arith
    at_result (ok (done r n)) h e = absurd (h r n refl)
    at_result (err x) h e = cc
    at_result panic h e = cc
    at_result Result.out_of_fuel h e = cc
