-- ===== src/Executor/Streamer/RoundTrip.antt =====
-- JSON string literals, and that the streamer decodes them.
use glassrail.Common.{
  Bool, Chars, List, Option, [], append-nil, append_assoc, arith, codes, concat, false,
  if◌then◌else◌, is_some, leb, length, ltb, map, nat_beq, none, refl, some, true, ℕ, ◌&&◌, ◌*◌,
  ◌++◌, ◌+◌, ◌-◌, ◌∙◌, ◌∷◌, ◌≡◌, ◌≢◌, nat_eq,
}
use glassrail.Executor.Streamer.{
  JsonFieldStreamer, unescape, feed_unicode_digit, feed_char, read, feed_all,
}
use glassrail.Executor.Streamer.Chunks.{feed_all_lem}

-- What stands between the quotes of a JSON string, `\b` and `\f` left out.
pub data Piece : Type 0 where
  plain : ℕ → Piece
  quote_mark backslash slash newline tab carriage_return : Piece
  -- `\uXXXX`, by its digits
  unicode : (a b c d : ℕ) → Piece

unfoldable pub written : Piece → Chars
written (Piece.plain c) = c ∷ []
written Piece.quote_mark = codes "\\\""
written Piece.backslash = codes "\\\\"
written Piece.slash = codes "\\/"
written Piece.newline = codes "\\n"
written Piece.tab = codes "\\t"
written Piece.carriage_return = codes "\\r"
written (Piece.unicode a b c d) = codes "\\u" ++ a ∷ b ∷ c ∷ d ∷ []

-- The value of a hexadecimal digit.
unfoldable pub hex_digit : ℕ → Option ℕ
hex_digit c =
    if leb b'0' c && leb c b'9'
    then some (c - b'0')
    else if leb b'a' c && leb c b'f'
    then some (c - b'a' + 10)
    else if leb b'A' c && leb c b'F'
    then some (c - b'A' + 10)
    else none

abbrev digit_value : ℕ → ℕ
digit_value c = elim (hex_digit c) [ none ↦ 0 | some x ↦ x ]

-- The character that a piece stands for.
unfoldable pub meant : Piece → ℕ
meant (Piece.plain c) = c
meant Piece.quote_mark = b'"'
meant Piece.backslash = b'\\'
meant Piece.slash = b'/'
meant Piece.newline = 10
meant Piece.tab = 9
meant Piece.carriage_return = 13
meant (Piece.unicode a b c d) =
    ((digit_value a * 16 + digit_value b) * 16 + digit_value c) * 16 + digit_value d

-- A half of a surrogate pair is no character.
abbrev pub is_surrogate : ℕ → Bool
is_surrogate n = leb 55296 n && leb n 57343

-- The pieces that JSON allows, surrogates left out.
unfoldable pub IsPiece : Piece → Type 0
unfolding meant
IsPiece (Piece.plain c) = (c ≢ b'"') × (c ≢ b'\\')
IsPiece (Piece.unicode a b c d) =
    (is_some (hex_digit a) ≡ true)
    × (is_some (hex_digit b) ≡ true)
    × (is_some (hex_digit c) ≡ true)
    × (is_some (hex_digit d) ≡ true)
    × (is_surrogate (meant (Piece.unicode a b c d)) ≡ false)
IsPiece _ = Unit

unfoldable pub AllPieces : List Piece → Type 0
unfolding IsPiece
AllPieces [] = Unit
AllPieces (p ∷ ps) = IsPiece p × AllPieces ps

unfoldable pub written_all : List Piece → Chars
unfolding written
written_all [] = []
written_all (p ∷ ps) = written p ++ written_all ps

-- What `chr(int(s, 16))` is for four hexadecimal digits of a character.
unfoldable pub HexLaw : (Chars → Option ℕ) → Type 0
unfolding hex_digit meant
HexLaw chr_of_hex =
    (a b c d : ℕ)
    → IsPiece (Piece.unicode a b c d)
    → chr_of_hex (a ∷ b ∷ c ∷ d ∷ []) ≡ some (meant (Piece.unicode a b c d))

-- Outside an escape, before the closing quote.
pub record IsReady (st : JsonFieldStreamer) : Type 0 where
  pub found : st.found ≡ true
  pub going : st.done ≡ false
  pub no_escape : st.escape ≡ false
  pub no_digits : st.unicode_buf ≡ none

module _ (chr_of_hex : Chars → Option ℕ) (hex : HexLaw chr_of_hex) where
  read_escape :
      (st : JsonFieldStreamer) (c : ℕ) (rest : Chars)
      → nat_beq c b'u' ≡ false
      → IsReady st
      → (k : ℕ) × (read chr_of_hex st (b'\\' ∷ c ∷ rest) ≡ (
        (read chr_of_hex (record st { pos = k }) rest).0,
        unescape c ∷ (read chr_of_hex (record st { pos = k }) rest).1,
      ))
  unfolding read feed_char
  read_escape st c rest e r = (st.pos + 1 + 1, rw (r.going, r.no_escape, r.no_digits, e) refl)

  -- The state inside a `\uXXXX` escape.
  abbrev inside : JsonFieldStreamer → ℕ → Chars → JsonFieldStreamer
  inside st k digits = record st { pos = k; unicode_buf = some digits }

  read_start :
      (st : JsonFieldStreamer) (rest : Chars)
      → IsReady st
      → read chr_of_hex st (b'\\' ∷ b'u' ∷ rest)
        ≡ read chr_of_hex (inside st (st.pos + 1 + 1) []) rest
  unfolding read feed_char
  read_start st rest r = rw (r.going, r.no_escape, r.no_digits) refl

  read_digit :
      (st : JsonFieldStreamer) (k : ℕ) (digits : Chars) (c : ℕ) (rest : Chars)
      → ltb (length (digits ++ c ∷ [])) 4 ≡ true
      → st.done ≡ false
      → read chr_of_hex (inside st k digits) (c ∷ rest)
        ≡ read chr_of_hex (inside st (k + 1) (digits ++ c ∷ [])) rest
  unfolding read feed_char feed_unicode_digit
  read_digit st k digits c rest e going = rw (going, e) refl

  read_last :
      (st : JsonFieldStreamer) (k : ℕ) (digits : Chars) (c : ℕ) (rest : Chars) (n : ℕ)
      → ltb (length (digits ++ c ∷ [])) 4 ≡ false
      → IsReady st
      → chr_of_hex (digits ++ c ∷ []) ≡ some n
      → read chr_of_hex (inside st k digits) (c ∷ rest) ≡ (
        (read chr_of_hex (record st { pos = k + 1 }) rest).0,
        n ∷ (read chr_of_hex (record st { pos = k + 1 }) rest).1,
      )
  unfolding read feed_char feed_unicode_digit
  read_last st k digits c rest n e r value = rw (r.going, r.no_digits, e, value) refl

  read_unicode :
      (st : JsonFieldStreamer) (a b c d : ℕ) (rest : Chars) (n : ℕ)
      → chr_of_hex (a ∷ b ∷ c ∷ d ∷ []) ≡ some n
      → IsReady st
      → (k : ℕ) × (read chr_of_hex st (b'\\' ∷ b'u' ∷ a ∷ b ∷ c ∷ d ∷ rest) ≡ (
        (read chr_of_hex (record st { pos = k }) rest).0,
        n ∷ (read chr_of_hex (record st { pos = k }) rest).1,
      ))
  read_unicode st a b c d rest n e r = (
    st.pos + 1 + 1 + 1 + 1 + 1 + 1,
    read_start st (a ∷ b ∷ c ∷ d ∷ rest) r
        ∙ read_digit st (st.pos + 1 + 1) [] a (b ∷ c ∷ d ∷ rest) refl r.going
        ∙ read_digit st (st.pos + 1 + 1 + 1) (a ∷ []) b (c ∷ d ∷ rest) refl r.going
        ∙ read_digit st (st.pos + 1 + 1 + 1 + 1) (a ∷ b ∷ []) c (d ∷ rest) refl r.going
        ∙ read_last st (st.pos + 1 + 1 + 1 + 1 + 1) (a ∷ b ∷ c ∷ []) d rest n refl r e,
  )

  read_piece :
      (st : JsonFieldStreamer) (p : Piece) (rest : Chars)
      → IsPiece p
      → IsReady st
      → (k : ℕ) × (read chr_of_hex st (written p ++ rest) ≡ (
        (read chr_of_hex (record st { pos = k }) rest).0,
        meant p ∷ (read chr_of_hex (record st { pos = k }) rest).1,
      ))
  unfolding unescape
  read_piece st (Piece.plain c) rest ok_piece r = (
    st.pos + 1,
    unfold written meant IsPiece read feed_char in
        ground (arith, r.going, r.no_escape, r.no_digits, ok_piece),
  )
  read_piece st Piece.quote_mark rest ok_piece r =
      unfold written meant in read_escape st b'"' rest refl r
  read_piece st Piece.backslash rest ok_piece r =
      unfold written meant in read_escape st b'\\' rest refl r
  read_piece st Piece.slash rest ok_piece r =
      unfold written meant in read_escape st b'/' rest refl r
  read_piece st Piece.newline rest ok_piece r =
      unfold written meant in read_escape st b'n' rest refl r
  read_piece st Piece.tab rest ok_piece r = unfold written meant in read_escape st b't' rest refl r
  read_piece st Piece.carriage_return rest ok_piece r =
      unfold written meant in read_escape st b'r' rest refl r
  read_piece st (Piece.unicode a b c d) rest ok_piece r =
      unfold written in
      read_unicode st a b c d rest (meant (Piece.unicode a b c d))
        (unfold HexLaw in hex a b c d ok_piece) r

  read_pieces :
      (st : JsonFieldStreamer) (ps : List Piece) (rest : Chars)
      → AllPieces ps
      → IsReady st
      → (k : ℕ) × (read chr_of_hex st (written_all ps ++ rest) ≡ (
        (read chr_of_hex (record st { pos = k }) rest).0,
        map meant ps ++ (read chr_of_hex (record st { pos = k }) rest).1,
      ))
  unfolding written_all AllPieces
  read_pieces st [] rest valid r = (st.pos, refl)
  read_pieces st (p ∷ ps) rest (first, later) r =
      let (j, e) = read_piece st p (written_all ps ++ rest) first r in
      let (k, f) =
        read_pieces (record st { pos = j }) ps rest later
          (record {
            found = r.found;
            going = r.going;
            no_escape = r.no_escape;
            no_digits = r.no_digits;
          }) in
      (k, rw (append_assoc (written p) (written_all ps) rest, e, f) refl)

  -- Within the text of its field the streamer is fed the pieces of a string, its closing quote and
  -- anything after it, in whatever chunks they come. If no piece is an escape of a surrogate or one of
  -- `\b` and `\f`, and `chr(int(s, 16))` is right for four digits, then the streamer emits the
  -- characters that the pieces stand for and is done.
  pub feed_all_round_trip :
      (st : JsonFieldStreamer) (ps : List Piece) (rest : Chars) (chunks : List Chars)
      → AllPieces ps
      → IsReady st
      → st.pos ≡ length st.buf
      → concat chunks ≡ written_all ps ++ b'"' ∷ rest
      → ((feed_all chr_of_hex st chunks).1 ≡ map meant ps)
        × ((feed_all chr_of_hex st chunks).0.done ≡ true)
  feed_all_round_trip st ps rest chunks valid r at_end e =
      let (b, i, whole) = feed_all_lem chr_of_hex st chunks r.found r.going at_end in
      let (k, pieces) = read_pieces st ps (b'"' ∷ rest) valid r in
      let (emitted, finished) = closing k in
      rw (whole, e, pieces, emitted, append-nil (map meant ps)) (refl, finished)
    where
      closing :
          (k : ℕ)
          → ((read chr_of_hex (record st { pos = k }) (b'"' ∷ rest)).1 ≡ [])
            × ((read chr_of_hex (record st { pos = k }) (b'"' ∷ rest)).0.done ≡ true)
      closing k = unfold read feed_char in rw (r.going, r.no_escape, r.no_digits) (refl, refl)
