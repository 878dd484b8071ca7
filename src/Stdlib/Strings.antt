-- ===== src/Stdlib/Strings.antt =====
-- The functions on character strings, crates/iec_stdlib/src/lib.rs. A string is its characters, so a
-- position counts characters.
pub mod Pieces
pub mod Edits
use robocpp.Base.{
  ℕ, zero, suc, ◌+◌, ◌-◌, Bool, true, false, not, ◌&&◌, ◌||◌, Option, none, some, List, [], ◌∷◌,
  ◌++◌, length, take, drop, if◌then◌else◌, ltb, leb, ◌==◌, unwrap_or,
}
use robocpp.Base.Int.{ℤ, pos, negsuc}
use robocpp.Base.Text.{Text}
use robocpp.Ir.Value.{Floats, Value, int, string, wstring, as_i64}
use robocpp.Stdlib.Args.{
  ◌>>=◌, ◌>>◌, guard, arg, value_string, string_count_arg, string_position_arg, string_like_result,
  any, is_wide,
}
use robocpp.Syntax.Cursor.{starts_with}

-- `chars.insert(i, c)`
abbrev pub insert_at : ℕ → ℕ → Text → Text
insert_at zero c s = c ∷ s
insert_at (suc i) c [] = []
insert_at (suc i) c (d ∷ s) = d ∷ insert_at i c s

-- `for (offset, ch) in insert.chars().enumerate() { chars.insert(pos + offset, ch); }`
unfoldable pub insert_chars : ℕ → Text → Text → Text
insert_chars place [] chars = chars
insert_chars place (c ∷ cs) chars = insert_chars (suc place) cs (insert_at place c chars)

-- The characters at the indices outside `from .. from + len`, the first index being `i`.
unfoldable pub keep_outside : ℕ → ℕ → ℕ → Text → Text
keep_outside from len i [] = []
keep_outside from len i (c ∷ s) =
    let rest = keep_outside from len (suc i) s in
    if leb from i && ltb i (from + len) then rest else c ∷ rest

-- `input.find(needle)`, as the number of characters before.
unfoldable pub find : Text → ℕ → Text → Option ℕ
find needle i [] = if starts_with needle [] then some i else none
find needle i (c ∷ s) =
    let later = find needle (suc i) s in if starts_with needle (c ∷ s) then some i else later

-- `pos == 0 || pos > chars.len() || pos - 1 + len > chars.len()`
abbrev pub outside : ℕ → ℕ → Text → Bool
outside place len chars =
    place == 0 || ltb (length chars) place || ltb (length chars) (place - 1 + len)

-- `pos` of `string_replace`, when it is more than 0.
abbrev pub positive : ℤ → Option ℕ
positive (pos zero) = none
positive (pos (suc n)) = some (suc n)
positive (negsuc n) = none

module _ {F : Floats} where
  unfoldable pub string_left : List (Value F) → Option (Value F)
  unfolding string_count_arg
  string_left args = do
    first ← arg args 0
    input ← value_string first
    len ← arg args 1 >>= string_count_arg
    guard (not (ltb (length input) len))
    some (string_like_result first (take len input))

  unfoldable pub string_right : List (Value F) → Option (Value F)
  unfolding string_count_arg
  string_right args = do
    first ← arg args 0
    input ← value_string first
    len ← arg args 1 >>= string_count_arg
    guard (not (ltb (length input) len))
    some (string_like_result first (drop (length input - len) input))

  unfoldable pub string_mid : List (Value F) → Option (Value F)
  unfolding string_count_arg string_position_arg
  string_mid args = do
    first ← arg args 0
    input ← value_string first
    len ← arg args 1 >>= string_count_arg
    place ← arg args 2 >>= string_position_arg
    guard (not (outside place len input))
    some (string_like_result first (take len (drop (place - 1) input)))

  abbrev pub join : Text → List (Value F) → Option Text
  join out [] = some out
  join out (v ∷ vs) = value_string v >>= λ t. join (out ++ t) vs

  unfoldable pub string_concat : List (Value F) → Option (Value F)
  string_concat args = do
    out ← join [] args
    some (if any is_wide args then wstring out else string out)

  unfoldable pub string_insert : List (Value F) → Option (Value F)
  unfolding string_position_arg insert_chars
  string_insert args = do
    first ← arg args 0
    input ← value_string first
    insert ← arg args 1 >>= value_string
    place ← arg args 2 >>= string_position_arg
    guard (not (ltb (length input) place))
    some (string_like_result first (insert_chars place insert input))

  unfoldable pub string_delete : List (Value F) → Option (Value F)
  unfolding string_count_arg string_position_arg keep_outside
  string_delete args = do
    first ← arg args 0
    input ← value_string first
    len ← arg args 1 >>= string_count_arg
    place ← arg args 2 >>= string_position_arg
    guard (not (outside place len input))
    some (string_like_result first (keep_outside (place - 1) len 0 input))

  unfoldable pub string_replace : List (Value F) → Option (Value F)
  string_replace args = do
    place ← arg args 3 >>= as_i64 >>= positive
    first ← arg args 0
    len ← arg args 2
    at ← arg args 3
    deleted ← string_delete (first ∷ len ∷ at ∷ []) >>= value_string
    insert ← arg args 1
    string_insert (string_like_result first deleted ∷ insert ∷ int (pos (place - 1)) ∷ [])

  unfoldable pub string_find : List (Value F) → Option (Value F)
  unfolding find
  string_find args = do
    input ← arg args 0 >>= value_string
    needle ← arg args 1 >>= value_string
    some (int (pos (found (find needle 0 input))))
    where
      found : Option ℕ → ℕ
      found none = 0
      found (some i) = i + 1
