-- ===== src/Syntax/Cursor.antt =====
-- Places in the source text and the loops that move over it, crates/iec_syntax/src/lexer.rs.
pub mod Moves
use robocpp.Base.{
  ℕ, zero, suc, ◌+◌, Bool, true, false, not, ◌&&◌, ◌||◌, List, [], ◌∷◌, ◌++◌, ltb, leb, ◌==◌,
  if◌then◌else◌,
}
use robocpp.Base.Text.{Text, codes, is_lower, is_upper, is_digit, is_alphanumeric, is_whitespace}
use robocpp.Base.Utf8.{len_utf8}

-- `pos`, and the text from there on, `source[pos..]`.
pub record Cursor : Type 0 where
  pub pos : ℕ
  pub rest : Text

abbrev pub cursor : ℕ → Text → Cursor
cursor pos rest = record { pos = pos; rest = rest }

abbrev pub starts_with : Text → Text → Bool
starts_with [] s = true
starts_with (p ∷ ps) [] = false
starts_with (p ∷ ps) (c ∷ s) = p == c && starts_with ps s

abbrev advance_from : ℕ → Text → Cursor
advance_from pos [] = cursor pos []
advance_from pos (c ∷ s) = cursor (pos + len_utf8 c) s

unfoldable pub advance : Cursor → Cursor
advance c = advance_from c.pos c.rest

-- `peek() == Some(expected)`
abbrev pub at_char : ℕ → Text → Bool
at_char expected [] = false
at_char expected (c ∷ s) = c == expected

-- `while self.peek().is_some_and(p) { self.advance(); }`
unfoldable pub advance_while : (ℕ → Bool) → ℕ → Text → Cursor
advance_while p pos [] = cursor pos []
advance_while p pos (c ∷ s) =
    let later = advance_while p (pos + len_utf8 c) s in if p c then later else cursor pos (c ∷ s)

abbrev pub is_ident_start : ℕ → Bool
is_ident_start c = is_lower c || is_upper c || c == b'_'

abbrev pub is_ident_continue : ℕ → Bool
is_ident_continue c = is_alphanumeric c || c == b'_'

abbrev pub is_number_char : ℕ → Bool
is_number_char c = is_digit c || c == b'_'

abbrev pub is_hexdigit : ℕ → Bool
is_hexdigit c = is_digit c || (leb b'a' c && leb c b'f') || (leb b'A' c && leb c b'F')

-- `char::is_control`
abbrev pub is_control : ℕ → Bool
is_control c = ltb c 0x20 || (leb 0x7f c && leb c 0x9f)

-- The body of a comment, and whether another comment starts in it.
unfoldable pub comment_rounds : Bool → ℕ → Text → Bool × Cursor
comment_rounds nested pos [] = (nested, cursor pos [])
comment_rounds nested pos (c ∷ s) =
    let later = comment_rounds (nested || starts_with (codes "(*") (c ∷ s)) (pos + len_utf8 c) s in
    if starts_with (codes "*)") (c ∷ s) then (nested, cursor pos (c ∷ s)) else later

-- `peek_next().is_some_and(is_ascii_digit)` before the character that is next.
abbrev pub digit_next : Text → Bool
digit_next [] = false
digit_next (c ∷ s) = is_digit c

abbrev pub ends_item : ℕ → Bool
ends_item c =
    is_whitespace c || c == b';' || c == b',' || c == b')' || c == b']' || c == b'(' || c == b'['

unfoldable pub consume_hash_literal_tail : Bool → ℕ → Text → Cursor
consume_hash_literal_tail allow_colon pos [] = cursor pos []
consume_hash_literal_tail allow_colon pos (c ∷ s) =
    let later = consume_hash_literal_tail allow_colon (pos + len_utf8 c) s in
    if ends_item c || (not allow_colon && c == b':' && not (digit_next s))
    then cursor pos (c ∷ s)
    else later

-- The loop of `consume_typed_string_literal_tail`; the flag says that `$` was just passed.
unfoldable pub typed_string_rounds : ℕ → Bool → ℕ → Text → Cursor
typed_string_rounds quote escaped pos [] = cursor pos []
typed_string_rounds quote escaped pos (c ∷ s) =
    let later = typed_string_rounds quote (not escaped && c == b'$') (pos + len_utf8 c) s in
    if not escaped && not (c == b'$') && c == quote then cursor (pos + len_utf8 c) s else later

abbrev pub is_quote : ℕ → Bool
is_quote c = c == b'\'' || c == b'"'

-- The quote is advanced over in any case.
unfoldable pub consume_typed_string_literal_tail : ℕ → Text → Cursor
consume_typed_string_literal_tail pos [] = cursor pos []
consume_typed_string_literal_tail pos (c ∷ s) =
    if is_quote c
    then typed_string_rounds c false (pos + len_utf8 c) s
    else cursor (pos + len_utf8 c) s

-- At most so many hexadecimal digits, behind the ones that have been read.
unfoldable pub hex_rounds : ℕ → Text → ℕ → Text → Text × Cursor
hex_rounds zero digits pos s = (digits, cursor pos s)
hex_rounds (suc left) digits pos [] = (digits, cursor pos [])
hex_rounds (suc left) digits pos (c ∷ s) =
    let later = hex_rounds left (digits ++ c ∷ []) (pos + len_utf8 c) s in
    if is_hexdigit c then later else (digits, cursor pos (c ∷ s))
