-- ===== src/Syntax/Skip.antt =====
-- `Lexer::skip_ws_comments_and_pragmas`, crates/iec_syntax/src/lexer.rs.
pub mod Skips
pub mod Rounds
use robocpp.Base.{
  ℕ, zero, suc, ◌+◌, ◌-◌, Bool, true, false, not, Option, none, some, List, [], ◌∷◌, ◌++◌, ltb,
  ◌==◌, if◌then◌else◌, length,
}
use robocpp.Base.Decimal.{print_ℕ}
use robocpp.Base.Text.{Text, codes, is_whitespace}
use robocpp.Diagnostics.{DiagnosticCode}
use robocpp.Syntax.Cursor.{Cursor, cursor, starts_with, advance, advance_while, comment_rounds}
use robocpp.Syntax.Source.{Source, Lexer, move, report}

-- Not the character that ends a pragma.
abbrev pub in_pragma : ℕ → Bool
in_pragma c = not (c == b'}')

abbrev comment_length_message : ℕ → ℕ → Text
comment_length_message length limit =
    codes "comment length " ++ (print_ℕ length ++ (codes " exceeds maximum " ++ print_ℕ limit))

module _ (source : Source) where
  unfoldable pub report_if : Bool → DiagnosticCode → Text → ℕ → ℕ → Lexer → Lexer
  report_if true code message start stop l = report source code message start stop l
  report_if false code message start stop l = l

  -- Behind the body of a comment.
  unfoldable pub end_comment : Lexer → Lexer × Bool
  end_comment l =
      if starts_with (codes "*)") l.cursor.rest
      then (move l (advance (advance l.cursor)), true)
      else (l, false)

  unfoldable pub skip_comment : Lexer → Lexer
  skip_comment l =
      let start = l.cursor.pos in
      let body = advance (advance l.cursor) in
      let (nested, c) = comment_rounds false body.pos body.rest in
      let l1 =
        report_if nested DiagnosticCode.lexical
          (codes "nested comments are not allowed in IEC 61131-3:2003") start c.pos (move l c) in
      let (l2, closed) = end_comment l1 in
      let l3 =
        report_if (not closed) DiagnosticCode.lexical (codes "unterminated comment") start
          l2.cursor.pos l2 in
      let length = l3.cursor.pos - start in
      let limit = source.implementation.max_comment_length in
      report_if (ltb limit length) DiagnosticCode.compliance (comment_length_message length limit)
        start l3.cursor.pos l3

  unfoldable pub skip_pragma : Lexer → Lexer
  skip_pragma l =
      let start = l.cursor.pos in
      let body = advance l.cursor in
      let c = advance_while in_pragma body.pos body.rest in
      let closed = starts_with (codes "}") c.rest in
      let l1 = if closed then move l (advance c) else move l c in
      let l2 =
        report_if (not closed) DiagnosticCode.lexical (codes "unterminated pragma") start
          l1.cursor.pos l1 in
      report_if (not source.implementation.pragmas_enabled) DiagnosticCode.compliance
        (codes "pragmas are disabled by implementation parameters") start l2.cursor.pos l2

  abbrev pub skip_whitespace : Lexer → Lexer
  skip_whitespace l = move l (advance_while is_whitespace l.cursor.pos l.cursor.rest)

  -- One round of the loop: `none` where it breaks.
  unfoldable pub skip_item : Lexer → Option Lexer
  skip_item l =
      if starts_with (codes "(*") l.cursor.rest
      then some (skip_comment l)
      else if starts_with (codes "{") l.cursor.rest
      then some (skip_pragma l)
      else none

  unfoldable pub skip_rounds : ℕ → Lexer → Lexer
  skip_rounds zero l = l
  skip_rounds (suc fuel) l = elim (skip_item (skip_whitespace l)) [
    | none ↦ skip_whitespace l
    | some next ↦ skip_rounds fuel next
  ]

  unfoldable pub skip_ws_comments_and_pragmas : Lexer → Lexer
  unfolding skip_rounds skip_item skip_comment skip_pragma report_if end_comment
  skip_ws_comments_and_pragmas l = skip_rounds (suc (length l.cursor.rest)) l
