-- ===== src/Conn/Pipeline.antt =====
-- Pipelining: what stands behind a complete request in the buffer does not change its answer.
use ferro_http.Http.Request.{Request, ok}
use ferro_http.Base.{
  ℕ, ◌+◌, ◌≡◌, refl, ◌∙◌, false, ◌++◌, arith, length, take, length-drop, take-append-drop,
  drop-append, Bytes,
}
use ferro_http.Http.Request.Parse.{done, parse_with}
use ferro_http.Http.Request.Parse.Stable.{parse_with-append}
use ferro_http.Http.Request.Parse.Bounds.{parse_with-IsBounded}
use ferro_http.Conn.{Service, Connection, feed, step_complete, step_on, step}

-- The step that answers a complete request.
step-done :
    (service : Service) (c : Connection) (now : ℕ) {r : Request} {n : ℕ}
    → parse_with c.buf c.max_body ≡ ok (done r n)
    → step service c now ≡ step_complete service c now r n
unfolding step step_on
step-done service c now e = rw (e, step_on)

-- If a request is complete in the buffer, then receiving more bytes first changes neither the answer
-- nor the close flag: the bytes are left behind what the request left of the buffer.
pub step-feed :
    (service : Service) (c : Connection) (now : ℕ) (more : Bytes) (r : Request) (n : ℕ)
    → parse_with c.buf c.max_body ≡ ok (done r n)
    → step service (feed more c) now ≡ (feed more (step service c now).0, (step service c now).1)
step-feed service c now more r n e =
    let bounded = parse_with-IsBounded c.buf c.max_body r n e in
    step-done service (feed more c) now (parse_with-append c.buf more c.max_body r n e)
    ∙ rw (step-done service c now e)
        (unfold step_complete in rw (drop-append n c.buf more bounded.in_buffer))

-- Where a request is complete, the step takes its bytes, as many as the parser says, from the front
-- of the buffer, keeps the rest, and forgets that an interim response was sent.
pub step_drains :
    (service : Service) (c : Connection) (now : ℕ) (r : Request) (n : ℕ)
    → parse_with c.buf c.max_body ≡ ok (done r n)
    → (take n c.buf ++ (step service c now).0.buf ≡ c.buf)
      × (length (step service c now).0.buf + n ≡ length c.buf)
      × ((step service c now).0.continue_sent ≡ false)
step_drains service c now r n e =
    let bounded = parse_with-IsBounded c.buf c.max_body r n e in
    rw (step-done service c now e) (
      unfold step_complete in
      (take-append-drop n c.buf, omega (arith, length-drop n c.buf, bounded.in_buffer), refl))
