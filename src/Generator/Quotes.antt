-- ===== src/Generator/Quotes.antt =====
-- The texts that the generator's configuration quotes: `escapeQuotes` of mapper.go.
use atom_operator.Prelude.{String, false, ◌≡◌, some}
use atom_operator.Text.{◌+s◌}
use atom_operator.Text.Escape.{HasNoBackslash, read_quoted, read_quoted-escape}
use atom_operator.Generator.Links.{escape_quotes}

-- An escaped text with no backslash of its own, put between quotes, is read back whole by a reader
-- for which a backslash makes the next character stand for itself, and the reader ends at the closing
-- quote, whatever follows.
pub escape_quotes_lem :
    (s rest : String)
    → HasNoBackslash s
    → read_quoted false (escape_quotes s +s "\"" +s rest) ≡ some (s, rest)
unfolding escape_quotes
escape_quotes_lem s rest h = read_quoted-escape s rest h
