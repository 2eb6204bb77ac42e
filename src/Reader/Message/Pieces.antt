-- ===== src/Reader/Message/Pieces.antt =====
-- tools/decompressor.c: what a format string means, piece by piece.
use cnano_log.Base.{ℕ, ◌≡◌, ◌≢◌, List, [], ◌∷◌, ◌++◌, true, false, All}
use cnano_log.Args.{int32, int64, uint32, uint64, double, pointer, char, Arg, scalar, text}
use cnano_log.Reader.Context.{Libc}
use cnano_log.Reader.Message.{find_char, flag_chars}

-- A character, `%%`, or a conversion with its flags, width and precision and its last character.
pub data Piece : Type 0 where
  plain : ℕ → Piece
  percent : Piece
  conversion : List ℕ → ℕ → Piece

abbrev pub IsFlag : ℕ → Type 0
IsFlag c = find_char c flag_chars ≡ true

unfoldable pub IsPiece : Piece → Type 0
IsPiece (plain c) = (c ≢ 0) × (c ≢ b'%')
IsPiece percent = Unit
IsPiece (conversion flags c) =
    All IsFlag flags × ((find_char c flag_chars ≡ false) × ((c ≢ 0) × (c ≢ b'%')))

-- The format string of the pieces.
unfoldable pub piece_chars : Piece → List ℕ
piece_chars (plain c) = c ∷ []
piece_chars percent = b'%' ∷ (b'%' ∷ [])
piece_chars (conversion flags c) = b'%' ∷ (flags ++ (c ∷ []))

unfoldable pub format_chars : List Piece → List ℕ
unfolding piece_chars
format_chars [] = []
format_chars (p ∷ ps) = piece_chars p ++ format_chars ps

-- An argument's text: its type chooses the way it is printed, whatever the conversion says.
unfoldable pub arg_text : Libc → Arg → List ℕ
arg_text libc (scalar int32 w) = libc.print_d w
arg_text libc (scalar int64 w) = libc.print_lld w
arg_text libc (scalar uint32 w) = libc.print_u w
arg_text libc (scalar uint64 w) = libc.print_u w
arg_text libc (scalar double w) = libc.print_f w
arg_text libc (scalar pointer w) = libc.print_p w
arg_text libc (scalar char w) = w ∷ []
arg_text libc (text s) = s

-- Each conversion takes the next argument, and stands for itself when there is none.
unfoldable pub render : Libc → List Piece → List Arg → List ℕ
unfolding arg_text piece_chars
render libc [] args = []
render libc (plain c ∷ ps) args = c ∷ render libc ps args
render libc (percent ∷ ps) args = b'%' ∷ render libc ps args
render libc (conversion flags c ∷ ps) [] = piece_chars (conversion flags c) ++ render libc ps []
render libc (conversion flags c ∷ ps) (a ∷ args) = arg_text libc a ++ render libc ps args
