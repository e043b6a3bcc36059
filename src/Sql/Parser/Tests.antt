-- ===== src/Sql/Parser/Tests.antt =====
-- The parser on concrete texts.
use amidb.Base.{◌≡◌, refl, ◌⊎◌, Bool, true, none, some, [], ◌∷◌, ◌++◌, arith}
use amidb.Sql.Lexer.Keywords.{same_text}
use amidb.Sql.Lexer.Defs.{lexer_init, lexer_next}
use amidb.Sql.Parser.Ast.{SqlStatement}
use amidb.Sql.Parser.State.{codes, SqlParser, parser_init, parser_advance}
use amidb.Sql.Parser.Select.{parser_parse_statement}
use amidb.Sql.Parser.Grammar.{
  kw, stop, ge, descending, count, aggregate, number, Query, select_from, words_of, meaning,
  IsQuery,
}
use amidb.Sql.Parser.Reads.{Ahead, after}
use amidb.Sql.Parser.CompleteClauses.{ending}
use amidb.Sql.Parser.CompleteAll.{parser_parse_statement-words_of}
use amidb.Sql.Parser.SoundAll.{parser_parse_statement-Accepts}
use amidb.Sql.Parser.Errors.{Complains}
use amidb.Sql.Parser.Outcome.{parser_parse_statement-has_error}

abbrev report : SqlParser
report = parser_init (
    lexer_init
      (codes "select COUNT(id) FROM t WHERE a >= 5 -- all\nORDER BY b DESC LIMIT 10; SELECT"))

abbrev report_query : Query
report_query =
    select_from (aggregate count (codes "id")) (codes "t")
      (some record { column = codes "a"; comparison = ge; literal = number 5 })
      (some record { column = codes "b"; direction = descending }) (some 10)

report-Ahead : Ahead report ((words_of report_query ++ ending true) ++ (kw 1 ∷ stop ∷ []))
unfolding parser_init lexer_init lexer_next parser_advance words_of same_text
report-Ahead = (
  (refl, refl),
  (
    (refl, refl),
    (
      (refl, refl),
      (
        (refl, refl),
        (
          (refl, refl),
          (
            (refl, refl),
            (
              (refl, refl),
              (
                (refl, refl),
                (
                  (refl, refl),
                  (
                    (refl, refl),
                    (
                      (refl, refl),
                      (
                        (refl, refl),
                        (
                          (refl, refl),
                          (
                            (refl, refl),
                            (
                              (refl, refl),
                              (
                                (refl, refl),
                                ((refl, refl), ((refl, refl), ((refl, refl), (refl, tt)))),
                              ),
                            ),
                          ),
                        ),
                      ),
                    ),
                  ),
                ),
              ),
            ),
          ),
        ),
      ),
    ),
  ),
)

parser_parse_statement-words_of_example :
    parser_parse_statement report
    ≡ (after (words_of report_query ++ ending true) report, some (meaning report_query))
parser_parse_statement-words_of_example =
    parser_parse_statement-words_of report_query true (kw 1 ∷ stop ∷ []) report
      (unfold IsQuery in omega arith) tt report-Ahead

-- The columns of SELECT are not parsed.
abbrev columns_text : SqlParser
columns_text = parser_init (lexer_init (codes "SELECT a, b FROM t;"))

parser_parse_statement-has_error_example :
    let (p', result) = parser_parse_statement columns_text in
    ((result ≡ none) × Complains p'
      ⊎ (s : SqlStatement) × (result ≡ some s)
        × (p'.has_error ≡ columns_text.has_error)
        × p'.error_msg ≡ columns_text.error_msg)
parser_parse_statement-has_error_example = parser_parse_statement-has_error columns_text

report-parsed :
    parser_parse_statement report
    ≡ (after (words_of report_query ++ ending true) report, some (meaning report_query))
report-parsed =
    parser_parse_statement-words_of report_query true (kw 1 ∷ stop ∷ []) report
      (unfold IsQuery in omega arith) tt report-Ahead

parser_parse_statement-Accepts_example :
    (q : Query) × (semi : Bool) × IsQuery q
    × Ahead report (words_of q ++ ending semi)
    × (after (words_of report_query ++ ending true) report
        ≡ after (words_of q ++ ending semi) report)
    × meaning report_query ≡ meaning q
parser_parse_statement-Accepts_example =
    parser_parse_statement-Accepts report (after (words_of report_query ++ ending true) report)
      (meaning report_query) report-parsed
