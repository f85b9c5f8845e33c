-- ===== src/Examples/Commands.antt =====
-- The parser and the framing of fw/src/protocol.cpp on short inputs.
use astro_uni_board.Base.{◌≡◌, ◌↔◌, refl, false, none, some, [], ◌∷◌, arith}
use astro_uni_board.Base.Int.{negsuc}
use astro_uni_board.Errors.{not_identified}
use astro_uni_board.Protocol.{
  Text, new_framer, line, process, feed, proto_int32, proto_split, route, refuse,
}
use astro_uni_board.Protocol.Numbers.{numeral, IsInt32, proto_int32-numeral}
use astro_uni_board.Protocol.Lists.{join_commas, proto_split-join_commas}
use astro_uni_board.Protocol.Lines.{lines_of, process-lines_of}

-- "-070"
abbrev minus_seventy : Text
minus_seventy = b'-' ∷ b'0' ∷ b'7' ∷ b'0' ∷ []

parses : proto_int32 minus_seventy ≡ some (negsuc 69)
unfolding proto_int32
parses = refl

proto_int32-numeral_example :
    (proto_int32 minus_seventy ≡ some (negsuc 69))
    ↔ ((numeral minus_seventy ≡ some (negsuc 69)) × IsInt32 (negsuc 69))
proto_int32-numeral_example = proto_int32-numeral minus_seventy (negsuc 69)

proto_split-join_commas_example :
    proto_split (b',' ∷ join_commas ((b'F' ∷ []) ∷ (b'1' ∷ b'6' ∷ []) ∷ []))
    ≡ some ((b'F' ∷ []) ∷ (b'1' ∷ b'6' ∷ []) ∷ [])
proto_split-join_commas_example =
    proto_split-join_commas b',' ((b'F' ∷ []) ∷ (b'1' ∷ b'6' ∷ []) ∷ []) refl
      (
        ((λ e. omega (arith, e)), tt),
        (((λ e. omega (arith, e)), ((λ e. omega (arith, e)), tt)), tt),
      )
      (omega arith)

-- Noise, a line that starts again, its end, and a `#` of its own.
abbrev input : Text
input = b'x' ∷ b':' ∷ b'9' ∷ b':' ∷ b'5' ∷ b'3' ∷ b'#' ∷ b'#' ∷ []

one_line : process new_framer input ≡ line (b'5' ∷ b'3' ∷ []) ∷ []
unfolding process feed
one_line = refl

process-lines_of_example : process new_framer input ≡ lines_of none input
process-lines_of_example = process-lines_of input

gate_shut : route false (line (b'5' ∷ b'3' ∷ [])) ≡ refuse not_identified
unfolding route
gate_shut = refl
