-- ===== src/Json/Parse/Total.antt =====
-- crates/core/src/json.rs: the parser ends on every document.
use ferro_http.Base.{
  ℕ, zero, suc, ◌+◌, ◌-◌, ◌≤◌, ◌<◌, ◌≡◌, ◌≢◌, false, not, ◌||◌, arith, ltb, ◌==◌, length, Bytes,
  is_empty, is_ascii_digit,
}
use ferro_http.Json.{
  Float, JsonValue, Items, Members, Parser, Reply, out_of_fuel, at_byte, advance, unexpected_end,
  skip_ws, push_item, push_member, expect, no_items, no_members,
}
use ferro_http.Json.Bounds.{
  Ends, >>=-Ends, peek-Ends, advance-lt, advance-le, expect-Ends, Ends-weaken, if-Ends, skip_ws-le,
  at_byte_pos, Ends-ne-out_of_fuel,
}
use ferro_http.Json.Text.{parse_string}
use ferro_http.Json.Text.Ends.{parse_string-Ends}
use ferro_http.Json.Parse.{
  max_depth, after_element, items_loop, members_loop, parse_array, parse_object, value_at,
  parse_value, parse,
}
use ferro_http.Json.Parse.Scalars.{parse_number-Ends, parse_bool-Ends, parse_null-Ends}

-- A comma takes a byte, so the loop goes on with fewer.
after_element-Ends :
    {A : Type 0} (k close : ℕ) (p : Parser) (next : Parser → Reply A) (done : A)
    → length p.rest ≤ k
    → ((q : Parser) → length q.rest < length p.rest → Ends k (next q))
    → Ends k (after_element close p next done)
unfolding after_element
after_element-Ends k close p next done le later =
    if-Ends k (at_byte p b',') _ _
      (λ e. later (advance 1 p) (advance-lt 1 p (omega arith) (at_byte_pos p b',' e)))
      λ e.
        if-Ends k (at_byte p close) _ _ (λ e. omega (arith, le, advance-le 1 p))
          λ e. if-Ends k (is_empty p.rest) _ _ (λ e. tt) (λ e. tt)

module _ {F : Type 0} (value : Parser → Reply (JsonValue F))
    (value-Ends : (p : Parser) → Ends (length p.rest - 1) (value p)) where
  items_loop-Ends :
      (fuel : ℕ) (vs : Items F) (p : Parser)
      → length p.rest < fuel
      → Ends (length p.rest) (items_loop value fuel vs p)
  unfolding items_loop
  items_loop-Ends zero vs p enough = absurd (omega (arith, enough))
  items_loop-Ends (suc fuel) vs p enough =
      >>=-Ends (length p.rest) (length p.rest) (value (skip_ws p)) _
        (Ends-weaken (omega (arith, skip_ws-le p)) (value (skip_ws p)) (value-Ends (skip_ws p)))
        λ v q le.
          after_element-Ends (length p.rest) b']' (skip_ws q) _ _ (omega (arith, le, skip_ws-le q))
            λ r lt.
              Ends-weaken (omega (arith, lt, le, skip_ws-le q))
                (items_loop value fuel (push_item vs v) r)
                (items_loop-Ends fuel (push_item vs v) r
                  (omega (arith, lt, le, skip_ws-le q, enough)))

  members_loop-Ends :
      (fuel : ℕ) (vs : Members F) (p : Parser)
      → length p.rest < fuel
      → Ends (length p.rest) (members_loop value fuel vs p)
  unfolding members_loop
  members_loop-Ends zero vs p enough = absurd (omega (arith, enough))
  members_loop-Ends (suc fuel) vs p enough =
      if-Ends k (not (at_byte (skip_ws p) b'"')) _ _ (λ e. tt)
        λ e.
          >>=-Ends k k (parse_string (skip_ws p)) _
            (Ends-weaken (omega (arith, skip_ws-le p)) (parse_string (skip_ws p))
              (parse_string-Ends (skip_ws p)))
            λ key q le.
              >>=-Ends k k (expect b':' (skip_ws q)) _
                (Ends-weaken (omega (arith, le, skip_ws-le q)) (expect b':' (skip_ws q))
                  (expect-Ends b':' (skip_ws q)))
                λ u r le'.
                  >>=-Ends k k (value (skip_ws r)) _
                    (Ends-weaken (omega (arith, le', skip_ws-le r)) (value (skip_ws r))
                      (value-Ends (skip_ws r)))
                    λ v t le''.
                      after_element-Ends k b'}' (skip_ws t) _ _ (omega (arith, le'', skip_ws-le t))
                        λ w lt.
                          Ends-weaken (omega (arith, lt, le'', skip_ws-le t))
                            (members_loop value fuel (push_member vs key v) w)
                            (members_loop-Ends fuel (push_member vs key v) w
                              (omega (arith, lt, le'', skip_ws-le t, enough)))
    where
      k : ℕ
      k = length p.rest

module _ {F : Type 0} (value : Parser → Reply (JsonValue F)) (depth : ℕ)
    (value-Ends : ltb max_depth (depth + 1) ≡ false
      → (p : Parser) → Ends (length p.rest - 1) (value p)) where
  parse_array-Ends : (p : Parser) → Ends (length p.rest - 1) (parse_array value depth p)
  unfolding parse_array
  parse_array-Ends p =
      if-Ends k (ltb max_depth (depth + 1)) _ _ (λ e. tt)
        λ below. >>=-Ends k k (expect b'[' p) _ (expect-Ends b'[' p) λ u q le.
          if-Ends k (at_byte (skip_ws q) b']') _ _
            (λ e. omega (arith, le, skip_ws-le q, advance-le 1 (skip_ws q)))
            λ e.
              >>=-Ends k k (items_loop value (suc (length q.rest)) no_items (skip_ws q)) _
                (Ends-weaken (omega (arith, le, skip_ws-le q))
                  (items_loop value (suc (length q.rest)) no_items (skip_ws q))
                  (items_loop-Ends value (value-Ends below) (suc (length q.rest)) no_items
                    (skip_ws q) (omega (arith, skip_ws-le q))))
                λ vs r le'. le'
    where
      k : ℕ
      k = length p.rest - 1

  parse_object-Ends : (p : Parser) → Ends (length p.rest - 1) (parse_object value depth p)
  unfolding parse_object
  parse_object-Ends p =
      if-Ends k (ltb max_depth (depth + 1)) _ _ (λ e. tt)
        λ below. >>=-Ends k k (expect b'{' p) _ (expect-Ends b'{' p) λ u q le.
          if-Ends k (at_byte (skip_ws q) b'}') _ _
            (λ e. omega (arith, le, skip_ws-le q, advance-le 1 (skip_ws q)))
            λ e.
              >>=-Ends k k (members_loop value (suc (length q.rest)) no_members (skip_ws q)) _
                (Ends-weaken (omega (arith, le, skip_ws-le q))
                  (members_loop value (suc (length q.rest)) no_members (skip_ws q))
                  (members_loop-Ends value (value-Ends below) (suc (length q.rest)) no_members
                    (skip_ws q) (omega (arith, skip_ws-le q))))
                λ vs r le'. le'
    where
      k : ℕ
      k = length p.rest - 1

module _ {F : Type 0} (float : Float F) where
  value_at-Ends :
      (value : Parser → Reply (JsonValue F)) (depth : ℕ)
      → (ltb max_depth (depth + 1) ≡ false → (p : Parser) → Ends (length p.rest - 1) (value p))
      → (p : Parser) (b : ℕ) → Ends (length p.rest - 1) (value_at float value depth p b)
  unfolding value_at
  value_at-Ends value depth ends p b =
      let k : ℕ = length p.rest - 1 in
      if-Ends k (b == b'{') _ _ (λ e. parse_object-Ends value depth ends p)
        λ e.
          if-Ends k (b == b'[') _ _ (λ e. parse_array-Ends value depth ends p)
            λ e.
              if-Ends k (b == b'"') _ _
                (λ e. >>=-Ends k k (parse_string p) _ (parse_string-Ends p) (λ s q le. le))
                λ e.
                  if-Ends k (b == b't' || b == b'f') _ _ (λ e. parse_bool-Ends F p)
                    λ e.
                      if-Ends k (b == b'n') _ _ (λ e. parse_null-Ends F p)
                        λ e.
                          if-Ends k (b == b'-' || is_ascii_digit b) _ _
                            (λ e. parse_number-Ends float p) (λ e. tt)

  pub parse_value-Ends :
      (fuel depth : ℕ)
      → max_depth < fuel + depth
      → depth ≤ max_depth
      → (p : Parser) → Ends (length p.rest - 1) (parse_value float fuel depth p)
  unfolding parse_value
  parse_value-Ends zero depth enough in_bound p = absurd (omega (arith, enough, in_bound))
  parse_value-Ends (suc fuel) depth enough in_bound p =
      peek-Ends unexpected_end p (length p.rest - 1) _ λ b more.
        value_at-Ends (parse_value float fuel (depth + 1)) depth
          (λ below.
            parse_value-Ends fuel (depth + 1) (omega (arith, enough)) (ground (arith, below)))
          p b

  -- The parser ends on every text, whatever the conversions of numbers are: its loops take bytes, and
  -- the bound on the nesting ends its recursion.
  pub parse_total : (input : Bytes) → parse float input ≢ out_of_fuel
  unfolding parse
  parse_total input = Ends-ne-out_of_fuel (length input) (parse float input) (
      >>=-Ends (length input) (length input) (parse_value float (suc max_depth) 0 start) _
        (Ends-weaken (omega (arith, skip_ws-le (record { pos = 0; rest = input })))
          (parse_value float (suc max_depth) 0 start)
          (parse_value-Ends (suc max_depth) 0 (omega arith) (omega arith) start))
        λ v p le.
          if-Ends (length input) (is_empty (skip_ws p).rest) _ _
            (λ e. omega (arith, le, skip_ws-le p)) (λ e. tt))
    where
      start : Parser
      start = skip_ws (record { pos = 0; rest = input })
