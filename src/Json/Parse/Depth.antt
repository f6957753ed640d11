-- ===== src/Json/Parse/Depth.antt =====
-- crates/core/src/json.rs: the values of the parser are not nested deeper than its bound.
use ferro_http.Base.{
  ℕ, zero, suc, ◌+◌, ◌-◌, ◌≤◌, ◌≡◌, not, ◌||◌, Option, none, some, arith, ltb, ◌==◌, length, take,
  Bytes, codes, is_empty, is_ascii_digit, starts_with, utf8_valid,
}
use Prim.Native.Nat.{max}
use ferro_http.Json.{
  fail, invalid_number, number, some_or, peek, unexpected_end, Float, bool, null, string, JsonValue,
  null, bool, number, string, array, object, Items, no_items, item, Members, no_members, member,
  Parser, Reply, ok, at_byte, skip_ws, push_item, push_member, expect,
}
use ferro_http.Json.Text.{parse_string}
use ferro_http.Json.Parse.{
  consume_digits, skip_sign, fraction, exponent, parse_number, parse_bool, parse_null, value_at,
  parse_value, parse, max_depth, items_loop, members_loop, parse_array, parse_object,
}
use ferro_http.Json.Parse.Holds.{
  Holds, >>=-Holds, any_value, if-Holds, after_element-Holds, Holds-ok,
}

module _ {F : Type 0} where
  -- How many arrays and objects stand inside each other.
  mutual
    pub depth_of : JsonValue F → ℕ
    depth_of (array vs) = suc (depth_of_items vs)
    depth_of (object vs) = suc (depth_of_members vs)
    depth_of null = 0
    depth_of (bool b) = 0
    depth_of (number n) = 0
    depth_of (string s) = 0

    pub depth_of_items : Items F → ℕ
    depth_of_items no_items = 0
    depth_of_items (item v vs) = max (depth_of v) (depth_of_items vs)

    pub depth_of_members : Members F → ℕ
    depth_of_members no_members = 0
    depth_of_members (member k v vs) = max (depth_of v) (depth_of_members vs)

module _ {F : Type 0} where
  depth-push_item :
      (n : ℕ) (vs : Items F) (v : JsonValue F)
      → depth_of_items vs ≤ n
      → depth_of v ≤ n
      → depth_of_items (push_item vs v) ≤ n
  unfolding depth_of
  depth-push_item n no_items v h h' = omega (arith, h')
  depth-push_item n (item w vs) v h h' =
      omega (arith, h, depth-push_item n vs v (omega (arith, h)) h')

  depth-push_member :
      (n : ℕ) (vs : Members F) (k : Bytes) (v : JsonValue F)
      → depth_of_members vs ≤ n
      → depth_of v ≤ n
      → depth_of_members (push_member vs k v) ≤ n
  unfolding depth_of
  depth-push_member n no_members k v h h' = omega (arith, h')
  depth-push_member n (member l w vs) k v h h' =
      omega (arith, h, depth-push_member n vs k v (omega (arith, h)) h')

module _ {F : Type 0} (value : Parser → Reply (JsonValue F)) (n : ℕ)
    (value-Holds : (p : Parser) → Holds (λ v. depth_of v ≤ n) (value p)) where
  items_loop-Holds :
      (fuel : ℕ) (vs : Items F) (p : Parser)
      → depth_of_items vs ≤ n
      → Holds (λ ws. depth_of_items ws ≤ n) (items_loop value fuel vs p)
  unfolding items_loop
  items_loop-Holds zero vs p h = tt
  items_loop-Holds (suc fuel) vs p h =
      >>=-Holds (λ v. depth_of v ≤ n) _ (value (skip_ws p)) _ (value-Holds (skip_ws p))
        λ v q le.
          after_element-Holds _ b']' (skip_ws q) _ _ (depth-push_item n vs v h le)
            λ r. items_loop-Holds fuel (push_item vs v) r (depth-push_item n vs v h le)

  members_loop-Holds :
      (fuel : ℕ) (vs : Members F) (p : Parser)
      → depth_of_members vs ≤ n
      → Holds (λ ws. depth_of_members ws ≤ n) (members_loop value fuel vs p)
  unfolding members_loop
  members_loop-Holds zero vs p h = tt
  members_loop-Holds (suc fuel) vs p h =
      if-Holds _ (not (at_byte (skip_ws p) b'"')) _ _ (λ e. tt)
        λ e.
          >>=-Holds (λ k. Unit) _ (parse_string (skip_ws p)) _
            (any_value (parse_string (skip_ws p)))
            λ key q _.
              >>=-Holds (λ u. Unit) _ (expect b':' (skip_ws q)) _
                (any_value (expect b':' (skip_ws q)))
                λ u r _.
                  >>=-Holds (λ v. depth_of v ≤ n) _ (value (skip_ws r)) _ (value-Holds (skip_ws r))
                    λ v t le.
                      after_element-Holds _ b'}' (skip_ws t) _ _ (depth-push_member n vs key v h le)
                        λ w.
                          members_loop-Holds fuel (push_member vs key v) w
                            (depth-push_member n vs key v h le)

module _ {F : Type 0} (value : Parser → Reply (JsonValue F)) (depth : ℕ)
    (value-Holds : (p : Parser) → Holds (λ v. depth_of v ≤ max_depth - (depth + 1)) (value p)) where
  parse_array-Holds :
      (p : Parser) → Holds (λ v. depth_of v ≤ max_depth - depth) (parse_array value depth p)
  unfolding parse_array depth_of
  parse_array-Holds p =
      if-Holds _ (ltb max_depth (depth + 1)) _ _ (λ e. tt)
        λ below.
          >>=-Holds (λ u. Unit) _ (expect b'[' p) _ (any_value (expect b'[' p))
            λ u q _.
              if-Holds _ (at_byte (skip_ws q) b']') _ _ (λ e. ground (arith, below))
                λ e.
                  >>=-Holds (λ vs. depth_of_items vs ≤ max_depth - (depth + 1)) _
                    (items_loop value (suc (length q.rest)) no_items (skip_ws q)) _
                    (items_loop-Holds value (max_depth - (depth + 1)) value-Holds _ no_items
                      (skip_ws q) (omega arith))
                    λ vs r le. ground (arith, below, le)

  parse_object-Holds :
      (p : Parser) → Holds (λ v. depth_of v ≤ max_depth - depth) (parse_object value depth p)
  unfolding parse_object depth_of
  parse_object-Holds p =
      if-Holds _ (ltb max_depth (depth + 1)) _ _ (λ e. tt)
        λ below.
          >>=-Holds (λ u. Unit) _ (expect b'{' p) _ (any_value (expect b'{' p))
            λ u q _.
              if-Holds _ (at_byte (skip_ws q) b'}') _ _ (λ e. ground (arith, below))
                λ e.
                  >>=-Holds (λ vs. depth_of_members vs ≤ max_depth - (depth + 1)) _
                    (members_loop value (suc (length q.rest)) no_members (skip_ws q)) _
                    (members_loop-Holds value (max_depth - (depth + 1)) value-Holds _ no_members
                      (skip_ws q) (omega arith))
                    λ vs r le. ground (arith, below, le)

module _ {F : Type 0} (float : Float F) where
  parse_number-Holds : (n : ℕ) (p : Parser) → Holds (λ v. depth_of v ≤ n) (parse_number float p)
  unfolding parse_number depth_of
  parse_number-Holds n start =
      >>=-Holds (λ u. Unit) _ (consume_digits (skip_sign start)) _ (any_value _)
        λ u p _.
          >>=-Holds (λ u. Unit) _ (fraction p) _ (any_value (fraction p))
            λ u q _.
              >>=-Holds (λ u. Unit) _ (exponent q) _ (any_value (exponent q))
                λ u r _.
                  if-Holds _ (not (utf8_valid (take (r.pos - start.pos) start.rest))) _ _ (λ e. tt)
                    λ e. converted r (float.parse (take (r.pos - start.pos) start.rest))
    where
      converted :
          (r : Parser) (o : Option F)
          → Holds
              (λ v. depth_of v ≤ n)
              (elim o as (λ x. Reply (JsonValue F)) [
                | none ↦ fail invalid_number start
                | some n ↦ ok (number n) r
              ])
      converted r none = tt
      converted r (some n) = omega arith

  value_at-Holds :
      (value : Parser → Reply (JsonValue F)) (depth : ℕ)
      → ((p : Parser) → Holds (λ v. depth_of v ≤ max_depth - (depth + 1)) (value p))
      → (p : Parser) (b : ℕ)
      → Holds (λ v. depth_of v ≤ max_depth - depth) (value_at float value depth p b)
  unfolding value_at parse_bool parse_null depth_of
  value_at-Holds value depth deeper p b =
      if-Holds _ (b == b'{') _ _ (λ e. parse_object-Holds value depth deeper p)
        λ e.
          if-Holds _ (b == b'[') _ _ (λ e. parse_array-Holds value depth deeper p)
            λ e.
              if-Holds _ (b == b'"') _ _
                (λ e.
                  >>=-Holds (λ s. Unit) _ (parse_string p) _ (any_value _) (λ s q _. omega arith))
                λ e.
                  if-Holds _ (b == b't' || b == b'f') _ _
                    (λ e.
                      if-Holds _ (starts_with p.rest (codes "true")) _ _ (λ e. omega arith)
                        λ e.
                          if-Holds _ (starts_with p.rest (codes "false")) _ _ (λ e. omega arith)
                            (λ e. tt))
                    λ e.
                      if-Holds _ (b == b'n') _ _
                        (λ e.
                          if-Holds _ (starts_with p.rest (codes "null")) _ _ (λ e. omega arith)
                            (λ e. tt))
                        λ e.
                          if-Holds _ (b == b'-' || is_ascii_digit b) _ _
                            (λ e. parse_number-Holds (max_depth - depth) p) (λ e. tt)

  parse_value-Holds :
      (fuel depth : ℕ) (p : Parser)
      → Holds (λ v. depth_of v ≤ max_depth - depth) (parse_value float fuel depth p)
  unfolding parse_value
  parse_value-Holds zero depth p = tt
  parse_value-Holds (suc fuel) depth p =
      >>=-Holds (λ b. Unit) _ (some_or (peek p) unexpected_end p) _ (any_value _)
        λ b q _.
          value_at-Holds (parse_value float fuel (depth + 1)) depth
            (parse_value-Holds fuel (depth + 1)) q b

  -- A value that the parser yields has at most 64 arrays and objects inside each other.
  pub parse-depth :
      (input : Bytes) (v : JsonValue F) (p : Parser)
      → parse float input ≡ ok v p
      → depth_of v ≤ max_depth
  unfolding parse
  parse-depth input v p parsed =
      Holds-ok (λ w. depth_of w ≤ max_depth) (parse float input)
        (>>=-Holds (λ w. depth_of w ≤ max_depth) _ (parse_value float (suc max_depth) 0 start) _
          (parse_value-Holds (suc max_depth) 0 start)
          λ w q le. if-Holds _ (is_empty (skip_ws q).rest) _ _ (λ e. le) (λ e. tt))
        parsed
    where
      start : Parser
      start = skip_ws (record { pos = 0; rest = input })
