-- ===== src/Signals/Tests.antt =====
-- The theorems about ditto_screener/source_signals.py at concrete inputs.
use ditto_screener.Prelude.{arith, ◌≡◌, refl, codes, List, [], ◌∷◌, ◌++◌, map}
use ditto_screener.Signals.Comments.{
  blank, mask_comments, mask_loop, next_span, raw_width, block_loop,
}
use ditto_screener.Signals.Comments.Layout.{HasLayout, mask_comments-HasLayout, mask_loop-fuel}
use ditto_screener.Signals.Comments.Source.{
  letter, escape, Token, plain, line_comment, string_literal, block_comment, raw_string,
  char_literal, escaped_literal,
}
use ditto_screener.Signals.Comments.Hidden.{
  NoNewline, byte_front, quotes_front, line_rest, mask_comments_byte_string,
  mask_comments_char_literal,
}
use ditto_screener.Signals.Literals.{mask_string_literals, literals_loop}
use ditto_screener.Signals.Literals.Layout.{mask_string_literals-HasLayout}

nested : mask_comments (codes "a/*x/*y*/z*/c//d") ≡ codes "a           c   "
unfolding mask_comments mask_loop next_span raw_width block_loop
nested = refl

quoted : mask_string_literals (codes "f('a\"b', 1)") ≡ codes "f(     , 1)"
unfolding mask_string_literals literals_loop
quoted = refl

mask_comments-HasLayout_example :
    HasLayout (codes "x = 1 // y") (mask_comments (codes "x = 1 // y"))
mask_comments-HasLayout_example = mask_comments-HasLayout (codes "x = 1 // y")

mask_loop-fuel_example : mask_loop 10 (codes "1 // y") ≡ mask_loop 20 (codes "1 // y")
mask_loop-fuel_example = mask_loop-fuel 10 20 (codes "1 // y") (omega arith) (omega arith)

-- Words with an `r` and a `b`, a lifetime, a quotient, and every kind of literal and comment.
abbrev tokens : List Token
tokens =
    plain b'f'
    ∷ plain b'o'
    ∷ plain b'r'
    ∷ plain b'<'
    ∷ plain b'\''
    ∷ plain b'a'
    ∷ plain b'>'
    ∷ plain b'b'
    ∷ plain b'/'
    ∷ string_literal (escape 34 ∷ letter b'/' ∷ letter b'/' ∷ [])
    ∷ line_comment (codes "no")
    ∷ raw_string 1 (codes "*/")
    ∷ block_comment (codes "* x / y *")
    ∷ char_literal 34
    ∷ escaped_literal b'n'
    ∷ []

steal-NoNewline : NoNewline (codes "steal()")
steal-NoNewline = (refl, (refl, (refl, (refl, (refl, (refl, (refl, tt)))))))

mask_comments_byte_string_example :
    mask_comments (byte_front ++ line_rest (codes "steal()"))
    ≡ byte_front ++ map blank (line_rest (codes "steal()"))
mask_comments_byte_string_example = mask_comments_byte_string (codes "steal()") steal-NoNewline

mask_comments_char_literal_example :
    mask_comments (quotes_front ++ line_rest (codes "steal()"))
    ≡ quotes_front ++ map blank (line_rest (codes "steal()"))
mask_comments_char_literal_example = mask_comments_char_literal (codes "steal()") steal-NoNewline

mask_string_literals-HasLayout_example :
    HasLayout (codes "f('a')") (mask_string_literals (codes "f('a')"))
mask_string_literals-HasLayout_example = mask_string_literals-HasLayout (codes "f('a')")
