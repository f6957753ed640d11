-- ===== src/Config/Members.antt =====
-- crates/core/src/config.rs and json.rs: the members of the objects that the writer prints, line by
-- line.
use ferro_http.Base.{
  ℕ, suc, ◌≤◌, ◌≡◌, refl, ap, Bool, true, false, not, List, [], ◌∷◌, ◌++◌, map, append_assoc, arith,
  length, length-append, Bytes, utf8_valid,
}
use ferro_http.Json.{
  Float, JsonValue, Members, no_members, member, push_member, skip_ws, skip_ws_from, is_ws,
}
use ferro_http.Config.Write.{quoted, line, more_lines, block, escape_json}
use ferro_http.Config.Values.{Reads, ends_value}

-- A value is not blank at its start.
abbrev pub starts_value : Bytes → Bool
starts_value [] = false
starts_value (c ∷ cs) = not (is_ws c)

pub skip_ws-value :
    (v rest : Bytes) (pos : ℕ)
    → starts_value v ≡ true
    → skip_ws (record { pos = pos; rest = b' ' ∷ v ++ rest })
      ≡ record { pos = suc pos; rest = v ++ rest }
unfolding skip_ws skip_ws_from
skip_ws-value [] rest pos h = cc
skip_ws-value (c ∷ cs) rest pos h = rw (not_ws (is_ws c) h) refl
  where
    not_ws : (b : Bool) → not b ≡ true → b ≡ false
    not_ws b e = ground (arith, e)

pub skip_ws-colon :
    (pos : ℕ) (rest : Bytes)
    → skip_ws (record { pos = pos; rest = b':' ∷ b' ' ∷ rest })
      ≡ record { pos = pos; rest = b':' ∷ b' ' ∷ rest }
unfolding skip_ws skip_ws_from
skip_ws-colon pos rest = refl

pub skip_ws-comma :
    (pos : ℕ) (rest : Bytes)
    → skip_ws (record { pos = pos; rest = b',' ∷ rest }) ≡ record { pos = pos; rest = b',' ∷ rest }
unfolding skip_ws skip_ws_from
skip_ws-comma pos rest = refl

module _ {F : Type 0} (float : Float F) (deep : ℕ) where
  -- A member of an object that the writer prints, and that it is read back.
  pub record Field : Type 0 where
    pub key : Bytes
    pub text : Bytes
    pub value : JsonValue F
    pub key_valid : utf8_valid key ≡ true
    pub text_starts : starts_value text ≡ true
    pub text_reads : Reads float deep text value

  unfoldable pub entry : Field → Bytes × Bytes
  entry f = (escape_json f.key, f.text)

  unfoldable pub members_of : List Field → Members F
  members_of [] = no_members
  members_of (f ∷ fs) = member f.key f.value (members_of fs)

module _ {F : Type 0} where
  abbrev pub append_members : Members F → Members F → Members F
  append_members no_members ws = ws
  append_members (member k v vs) ws = member k v (append_members vs ws)

  pub append-push_member :
      (vs : Members F) (k : Bytes) (v : JsonValue F) (ws : Members F)
      → append_members (push_member vs k v) ws ≡ append_members vs (member k v ws)
  append-push_member no_members k v ws = refl
  append-push_member (member l w vs) k v ws = ap (member l w) (append-push_member vs k v ws)

  pub push_member-append :
      (vs : Members F) (k : Bytes) (v : JsonValue F)
      → push_member vs k v ≡ append_members vs (member k v no_members)
  push_member-append no_members k v = refl
  push_member-append (member l w vs) k v = ap (member l w) (push_member-append vs k v)

-- A line and what follows it, from the quote in front of the key on.
abbrev pub opened : Bytes → Bytes → Bytes → Bytes
opened key text rest = quoted key ++ (b':' ∷ b' ' ∷ (text ++ rest))

pub length-opened : (key text rest : Bytes) → length rest ≤ length (opened key text rest)
length-opened key text rest =
    omega
      (arith, length-append (quoted key) (b':' ∷ b' ' ∷ (text ++ rest)), length-append text rest)

line-opened :
    (indent key text rest : Bytes)
    → line indent (escape_json key, text) ++ rest ≡ indent ++ opened key text rest
line-opened indent key text rest = simp append_assoc

module _ {F : Type 0} {float : Float F} {deep : ℕ} (outer indent : Bytes) where
  -- What follows the first member.
  unfoldable pub rest_of : List (Field float deep) → Bytes → Bytes
  rest_of fs tail =
      more_lines indent (map (entry float deep) fs) ++ (b'\n' ∷ (outer ++ b'}' ∷ tail))

  pub rest_of-ends :
      (fs : List (Field float deep)) (tail : Bytes) → ends_value (rest_of fs tail) ≡ true
  unfolding rest_of more_lines
  rest_of-ends [] tail = refl
  rest_of-ends (f ∷ fs) tail = refl

  pub rest_of-cons :
      (f : Field float deep) (fs : List (Field float deep)) (tail : Bytes)
      → rest_of (f ∷ fs) tail ≡ b',' ∷ b'\n' ∷ (indent ++ opened f.key f.text (rest_of fs tail))
  unfolding rest_of more_lines entry
  rest_of-cons f fs tail = simp append_assoc

  pub block-opened :
      (f : Field float deep) (fs : List (Field float deep)) (tail : Bytes)
      → block outer indent (entry float deep f) (map (entry float deep) fs) ++ tail
        ≡ b'{' ∷ b'\n' ∷ (indent ++ opened f.key f.text (rest_of fs tail))
  unfolding rest_of block entry
  block-opened f fs tail = simp append_assoc

  pub length-rest_of :
      (fs : List (Field float deep)) (tail : Bytes) → length fs ≤ length (rest_of fs tail)
  length-rest_of [] tail = omega arith
  length-rest_of (f ∷ fs) tail = rw (rest_of-cons f fs tail) (
      omega (
        arith,
        length-rest_of fs tail,
        length-opened f.key f.text (rest_of fs tail),
        length-append indent (opened f.key f.text (rest_of fs tail)),
      ))
