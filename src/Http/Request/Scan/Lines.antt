-- ===== src/Http/Request/Scan/Lines.antt =====
-- Lines joined by CRLF are split into the same lines, and the first blank line is found behind them.
use ferro_http.Base.{
  ℕ, zero, suc, ◌+◌, ◌<◌, ◌≡◌, refl, ap, ◌∙◌, false, none, some, List, [], ◌∷◌, ◌++◌, append_assoc,
  arith, length, take, drop, length-append, Bytes, is_empty, starts_with,
}
use mathlib.Core.Option
use Prim.Native.Nat.add
use ferro_http.Http.Request.Scan.{
  window_position, find_subslice, split_crlf_from, split_crlf, crlf, crlf_crlf,
}
use ferro_http.Http.Request.Scan.BareCr.{All, has_cr}

-- A line, followed by the others with CRLF between two.
abbrev pub join_crlf : Bytes → List Bytes → Bytes
join_crlf line [] = line
join_crlf line (l ∷ ls) = line ++ b'\r' ∷ b'\n' ∷ join_crlf l ls

abbrev pub IsLine : Bytes → Type 0
IsLine l = (has_cr l ≡ false) × (is_empty l ≡ false)

window-crlf :
    (l rest : Bytes)
    → has_cr l ≡ false
    → window_position (l ++ b'\r' ∷ b'\n' ∷ rest) crlf ≡ some (length l)
unfolding window_position starts_with
window-crlf [] [] h = refl
window-crlf [] (c ∷ rest) h = refl
window-crlf (x ∷ l) rest h = ground (arith, window-crlf l rest)

find-crlf :
    (l rest : Bytes)
    → has_cr l ≡ false
    → find_subslice (l ++ b'\r' ∷ b'\n' ∷ rest) crlf ≡ some (length l)
unfolding find_subslice
find-crlf l rest h = ground (arith, window-crlf l rest h, length-append l (b'\r' ∷ b'\n' ∷ rest))

window-no_crlf : (l : Bytes) → has_cr l ≡ false → window_position l crlf ≡ none
unfolding window_position starts_with
window-no_crlf [] h = refl
window-no_crlf (x ∷ l) h = ground (arith, window-no_crlf l)

find-no_crlf : (l : Bytes) → has_cr l ≡ false → find_subslice l crlf ≡ none
unfolding find_subslice
find-no_crlf l h = ground (arith, window-no_crlf l h)

pub take-length-append : (xs ys : Bytes) → take (length xs) (xs ++ ys) ≡ xs
take-length-append [] ys = refl
take-length-append (x ∷ xs) ys = ap (◌∷◌ x) (take-length-append xs ys)

drop-length-append : (xs ys : Bytes) → drop (length xs + 2) (xs ++ b'\r' ∷ b'\n' ∷ ys) ≡ ys
drop-length-append [] ys = refl
drop-length-append (x ∷ xs) ys = rw add.suc (drop-length-append xs ys)

window-past :
    (l rest : Bytes) (k : ℕ)
    → has_cr l ≡ false
    → starts_with rest (b'\r' ∷ []) ≡ false
    → window_position rest crlf_crlf ≡ some k
    → window_position (l ++ b'\r' ∷ b'\n' ∷ rest) crlf_crlf ≡ some (length l + 2 + k)
unfolding window_position starts_with
window-past [] [] k h ne e = cc
window-past [] (c ∷ rest) k h ne e = ground (arith, e)
window-past (x ∷ l) rest k h ne e = ground (arith, window-past l rest k)

window-last :
    (l rest : Bytes)
    → has_cr l ≡ false
    → window_position (l ++ b'\r' ∷ b'\n' ∷ b'\r' ∷ b'\n' ∷ rest) crlf_crlf ≡ some (length l)
unfolding window_position starts_with
window-last [] [] h = refl
window-last [] (c ∷ rest) h = refl
window-last (x ∷ l) rest h = ground (arith, window-last l rest)

join-no_cr :
    (l : Bytes) (ls : List Bytes) (rest : Bytes)
    → IsLine l
    → starts_with (join_crlf l ls ++ rest) (b'\r' ∷ []) ≡ false
unfolding starts_with
join-no_cr [] ls rest h = cc
join-no_cr (x ∷ l) [] [] h = ground arith
join-no_cr (x ∷ l) [] (c ∷ rest) h = ground arith
join-no_cr (x ∷ l) (m ∷ ms) rest h = ground arith

-- The first blank line stands behind the last line.
window-blank :
    (line : Bytes) (ls : List Bytes) (rest : Bytes)
    → IsLine line
    → All IsLine ls
    → window_position (join_crlf line ls ++ (b'\r' ∷ b'\n' ∷ b'\r' ∷ b'\n' ∷ rest)) crlf_crlf
      ≡ some (length (join_crlf line ls))
window-blank line [] rest h hs = window-last line rest h.0
window-blank line (l ∷ ls) rest h hs =
    let blank = b'\r' ∷ b'\n' ∷ b'\r' ∷ b'\n' ∷ rest in
    let later = window-blank l ls rest hs.0 hs.1 in
    let past =
      window-past line (join_crlf l ls ++ blank) (length (join_crlf l ls)) h.0
        (join-no_cr l ls blank hs.0) later in
    let long = length-append line (b'\r' ∷ b'\n' ∷ join_crlf l ls) in
    rw append_assoc (past ∙ ap some (omega (arith, long)))

split_crlf_from-join :
    (f : ℕ) (line : Bytes) (ls : List Bytes)
    → length (join_crlf line ls) < f
    → IsLine line
    → All IsLine ls
    → split_crlf_from f (join_crlf line ls) ≡ some (line ∷ ls)
unfolding split_crlf_from
split_crlf_from-join zero line ls enough h hs = absurd (omega arith)
split_crlf_from-join (suc f) line [] enough h hs = rw (find-no_crlf line h.0, split_crlf_from)
split_crlf_from-join (suc f) line (l ∷ ls) enough h hs =
    let rest = join_crlf l ls in
    rw (find-crlf line rest h.0, split_crlf_from)
      (rw (take-length-append line (b'\r' ∷ b'\n' ∷ rest), drop-length-append line rest)
        (ap (Option.map (◌∷◌ line)) (
          split_crlf_from-join f l ls (omega (arith, length-append line (b'\r' ∷ b'\n' ∷ rest)))
            hs.0 hs.1)))

-- Any text that follows the lines and a blank line leaves both where they are.
pub find-blank :
    (line : Bytes) (ls : List Bytes) (rest : Bytes)
    → IsLine line
    → All IsLine ls
    → find_subslice (join_crlf line ls ++ (b'\r' ∷ b'\n' ∷ b'\r' ∷ b'\n' ∷ rest)) crlf_crlf
      ≡ some (length (join_crlf line ls))
unfolding find_subslice
find-blank line ls rest h hs = ground (
  arith,
  window-blank line ls rest h hs,
  length-append (join_crlf line ls) (b'\r' ∷ b'\n' ∷ b'\r' ∷ b'\n' ∷ rest),
)

pub split_crlf-join :
    (line : Bytes) (ls : List Bytes)
    → IsLine line
    → All IsLine ls
    → split_crlf (join_crlf line ls) ≡ some (line ∷ ls)
unfolding split_crlf
split_crlf-join line ls h hs =
    split_crlf_from-join (suc (length (join_crlf line ls))) line ls (omega arith) h hs
