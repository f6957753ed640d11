-- ===== src/Http/Response/Wire.antt =====
-- The head of a response on the wire, as a client splits it.
use ferro_http.Base.{
  ℕ, zero, suc, ◌+◌, ◌/◌, ◌%◌, ◌≡◌, refl, sym, ◌∙◌, inl, inr, Bool, true, false, not, ◌&&◌, ◌||◌,
  some, List, [], ◌∷◌, ◌++◌, map, append_assoc, append-nil, arith, if◌then◌else◌, Bool-cases,
  length, take, drop, Bytes, codes, is_empty, filter, dec_digits, print_dec,
}
use Prim.Native.Nat.add
use ferro_http.Http.Status.{StatusCode, reason, is_empty_body}
use ferro_http.Http.Request.Scan.{find_subslice, split_crlf, crlf_crlf}
use ferro_http.Http.Request.Scan.BareCr.{All, has_cr}
use ferro_http.Http.Request.Scan.Lines.{
  join_crlf, IsLine, find-blank, split_crlf-join, take-length-append,
}
use ferro_http.Http.Response.{
  Response, has_forbidden_byte, is_written, header_line, push_headers, status_line, serialize_head,
  serialize,
}

-- The lines of the head: the status line, the headers that are written, and the length.
abbrev pub status_text : StatusCode → Bytes
status_text s = codes "HTTP/1.1 " ++ (print_dec s.code ++ (codes " " ++ reason s))

abbrev pub header_text : Bytes × Bytes → Bytes
header_text (name, value) = name ++ (codes ": " ++ value)

abbrev pub length_lines : Response → List Bytes
length_lines r =
    if is_empty_body r.status
    then []
    else (codes "Content-Length: " ++ print_dec (length r.body)) ∷ []

abbrev pub field_lines : Response → List Bytes
field_lines r = map header_text (filter is_written r.headers) ++ length_lines r

has_cr-append : (a b : Bytes) → has_cr (a ++ b) ≡ (has_cr a || has_cr b)
has_cr-append [] b = refl
has_cr-append (x ∷ a) b = ground (arith, has_cr-append a b)

dec_digits-has_cr : (f n : ℕ) → has_cr (dec_digits f n) ≡ false
unfolding dec_digits
dec_digits-has_cr zero n = refl
dec_digits-has_cr (suc f) n = ground (
  arith,
  dec_digits-has_cr f (n / 10),
  has_cr-append (dec_digits f (n / 10)) ((n % 10 + b'0') ∷ []),
)

print_dec-has_cr : (n : ℕ) → has_cr (print_dec n) ≡ false
unfolding print_dec
print_dec-has_cr n = dec_digits-has_cr (suc n) n

reason-has_cr : (s : StatusCode) → has_cr (reason s) ≡ false
unfolding reason
reason-has_cr s = ground arith

status_text-IsLine : (s : StatusCode) → IsLine (status_text s)
status_text-IsLine s = (
  ground (
    arith,
    has_cr-append (print_dec s.code) (codes " " ++ reason s),
    print_dec-has_cr s.code,
    reason-has_cr s,
  ),
  refl,
)

has_cr-forbidden : (s : Bytes) → has_forbidden_byte s ≡ false → has_cr s ≡ false
unfolding has_forbidden_byte
has_cr-forbidden [] h = refl
has_cr-forbidden (x ∷ s) h = ground (arith, has_cr-forbidden s)

is_empty-append : (a b : Bytes) (c : ℕ) → is_empty (a ++ c ∷ b) ≡ false
is_empty-append [] b c = refl
is_empty-append (x ∷ a) b c = refl

header_text-IsLine : (h : Bytes × Bytes) → is_written h ≡ true → IsLine (header_text h)
unfolding is_written
header_text-IsLine (name, value) w = (
  ground (
    arith,
    has_cr-append name (codes ": " ++ value),
    has_cr-forbidden name,
    has_cr-forbidden value,
  ),
  is_empty-append name (b' ' ∷ value) b':',
)

All-append {ℓ κ} :
    {A : Type ℓ} (P : A → Type κ) (xs ys : List A) → All P xs → All P ys → All P (xs ++ ys)
All-append P [] ys h k = k
All-append P (x ∷ xs) ys h k = (h.0, All-append P xs ys h.1 k)

written-IsLine : (hs : List (Bytes × Bytes)) → All IsLine (map header_text (filter is_written hs))
written-IsLine [] = tt
written-IsLine (h ∷ hs) = elim (Bool-cases (is_written h)) [
  | inl w ↦ rw w (header_text-IsLine h w, written-IsLine hs)
  | inr n ↦ rw n (written-IsLine hs)
]

length_lines-IsLine : (r : Response) → All IsLine (length_lines r)
length_lines-IsLine r = elim (Bool-cases (is_empty_body r.status)) [
  | inl e ↦ rw e tt
  | inr e ↦ rw e ((print_dec-has_cr (length r.body), refl), tt)
]

-- Each line with its CRLF.
abbrev unlines : List Bytes → Bytes
unlines [] = []
unlines (l ∷ ls) = (l ++ codes "\r\n") ++ unlines ls

join-unlines :
    (line : Bytes) (ls : List Bytes) (rest : Bytes)
    → join_crlf line ls ++ (b'\r' ∷ b'\n' ∷ rest) ≡ (line ++ codes "\r\n") ++ (unlines ls ++ rest)
join-unlines line [] rest = simp append_assoc
join-unlines line (l ∷ ls) rest = simp (append_assoc, join-unlines l ls)

unlines-append : (xs ys : List Bytes) → unlines (xs ++ ys) ≡ unlines xs ++ unlines ys
unlines-append [] ys = refl
unlines-append (x ∷ xs) ys = simp (unlines-append xs ys, append_assoc)

push_headers-unlines :
    (head : Bytes) (hs : List (Bytes × Bytes))
    → push_headers head hs ≡ head ++ unlines (map header_text (filter is_written hs))
unfolding push_headers
push_headers-unlines head [] = sym (append-nil head)
push_headers-unlines head (h ∷ hs) = elim (Bool-cases (is_written h)) [
  | inl w ↦ rw w (push_headers-unlines (head ++ header_line h) hs ∙ simp append_assoc)
  | inr n ↦ rw n (push_headers-unlines head hs)
]

serialize_head-join :
    (r : Response) (rest : Bytes)
    → serialize_head r ++ rest
      ≡ join_crlf (status_text r.status) (field_lines r) ++ (b'\r' ∷ b'\n' ∷ b'\r' ∷ b'\n' ∷ rest)
unfolding serialize_head
serialize_head-join r rest = elim (Bool-cases (is_empty_body r.status)) [
  | inl e ↦
      rw
        (
          push_headers-unlines (status_line r.status) r.headers,
          join-unlines (status_text r.status) (field_lines r) (b'\r' ∷ b'\n' ∷ rest),
        )
        (rw e (simp (unlines-append, append_assoc)))
  | inr e ↦
      rw
        (
          push_headers-unlines (status_line r.status) r.headers,
          join-unlines (status_text r.status) (field_lines r) (b'\r' ∷ b'\n' ∷ rest),
        )
        (rw e (simp (unlines-append, append_assoc)))
]

drop-blank :
    (xs ys : Bytes) → drop (length xs + 4) (xs ++ (b'\r' ∷ b'\n' ∷ b'\r' ∷ b'\n' ∷ ys)) ≡ ys
drop-blank [] ys = refl
drop-blank (x ∷ xs) ys = rw add.suc (drop-blank xs ys)

-- The body that is written.
abbrev pub body_on_wire : Response → Bool → Bytes
body_on_wire r head_only = if not head_only && not (is_empty_body r.status) then r.body else []

serialize-join :
    (r : Response) (head_only : Bool)
    → serialize r head_only
      ≡ join_crlf (status_text r.status) (field_lines r)
        ++ (b'\r' ∷ b'\n' ∷ b'\r' ∷ b'\n' ∷ body_on_wire r head_only)
unfolding serialize
serialize-join r head_only = elim (Bool-cases (not head_only && not (is_empty_body r.status))) [
  | inl e ↦ rw e (serialize_head-join r r.body)
  | inr e ↦ rw e (sym (append-nil (serialize_head r)) ∙ serialize_head-join r [])
]

-- Whatever header names and values a handler sets, a client that looks for the first blank line of
-- the bytes written and splits what stands before it on CRLF gets the status line, one line for each
-- header that is not dropped, and one Content-Length line with the body's length (none for a status
-- without a body); behind the blank line stands the body, or nothing for HEAD and for a status
-- without a body.
pub serialize_lines :
    (r : Response) (head_only : Bool)
    → (end : ℕ) × (find_subslice (serialize r head_only) crlf_crlf ≡ some end)
      × (split_crlf (take end (serialize r head_only))
          ≡ some (status_text r.status ∷ field_lines r))
      × (drop (end + 4) (serialize r head_only) ≡ body_on_wire r head_only)
serialize_lines r head_only =
    let line = status_text r.status in
    let fields = field_lines r in
    let body = body_on_wire r head_only in
    let one = status_text-IsLine r.status in
    let each =
      All-append IsLine (map header_text (filter is_written r.headers)) (length_lines r)
        (written-IsLine r.headers) (length_lines-IsLine r) in
    (
      length (join_crlf line fields),
      rw (serialize-join r head_only) (find-blank line fields body one each),
      rw (serialize-join r head_only, take-length-append) (split_crlf-join line fields one each),
      rw (serialize-join r head_only) (drop-blank (join_crlf line fields) body),
    )
