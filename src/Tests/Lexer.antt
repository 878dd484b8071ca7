-- ===== src/Tests/Lexer.antt =====
-- A source text with a token of each kind, a comment, a pragma and a stray character.
use robocpp.Base.{true}
use robocpp.Base.Text.{codes}
use robocpp.Syntax.Cursor.{cursor}
use robocpp.Syntax.Source.{Source}
use robocpp.Syntax.Lexer.{lex}
use robocpp.Syntax.Lexer.Covers.{Tokenizes, lex-Tokenizes}

abbrev program : Source
program = record {
  name = codes "a.st";
  text = codes "x1 := (* c *) 16#FF + 'a$41$$'; {p} %IX0.0 ! 1.5e-3..TIME#3s:";
  implementation = record { max_comment_length = 100; pragmas_enabled = true };
}

lex-Tokenizes_example : Tokenizes (cursor 0 program.text) (lex program).0
lex-Tokenizes_example = lex-Tokenizes program
