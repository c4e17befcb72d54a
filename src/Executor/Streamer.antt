-- ===== src/Executor/Streamer.antt =====
-- `JsonFieldStreamer` of src/glassrail/executor/executor.py: the text of one string field, taken out
-- of a JSON answer while the answer still arrives.
pub mod Chunks
pub mod RoundTrip
use glassrail.Common.{
  Bool, Chars, List, Option, [], codes, drop, false, find, if◌then◌else◌, keep_last, length, ltb,
  none, pos, some, true, ℕ, ◌++◌, ◌+◌, ◌==◌, ◌∷◌, nat_eq,
}

pub record JsonFieldStreamer : Type 0 where
  pub marker : Chars
  pub alt_marker : Chars
  pub buf : Chars
  pub pos : ℕ
  pub found : Bool
  pub done : Bool
  pub escape : Bool
  -- the digits so far of a `\uXXXX` escape
  pub unicode_buf : Option Chars

-- `JsonFieldStreamer(field)`
unfoldable pub new_streamer : Chars → JsonFieldStreamer
new_streamer field = record {
  marker = codes "\"" ++ field ++ codes "\": \"";
  alt_marker = codes "\"" ++ field ++ codes "\":\"";
  buf = [];
  pos = 0;
  found = false;
  done = false;
  escape = false;
  unicode_buf = none;
}

-- `_ESCAPES.get(c, c)`: the letters n, t and r stand for control characters
unfoldable pub unescape : ℕ → ℕ
unescape c = if c == b'n' then 10 else if c == b't' then 9 else if c == b'r' then 13 else c

-- `_scan_for_marker`
unfoldable pub scan_for_marker : JsonFieldStreamer → JsonFieldStreamer × Bool
scan_for_marker st = elim (find st.marker st.buf) [
  | some i ↦ (record st { pos = i + length st.marker; found = true }, true)
  | none ↦ elim (find st.alt_marker st.buf) [
    | some i ↦ (record st { pos = i + length st.alt_marker; found = true }, true)
    | none ↦
        let keep = length st.marker + 5 in
        if ltb keep (length st.buf)
        then (record st { buf = keep_last keep st.buf; pos = 0 }, false)
        else (st, false)
  ]
]

-- `chr(int(digits, 16))`, with `none` where it raises `ValueError`
module _ (chr_of_hex : Chars → Option ℕ) where
  -- `_feed_unicode_digit`, for the digits so far
  unfoldable pub feed_unicode_digit : JsonFieldStreamer → Chars → ℕ → JsonFieldStreamer × Chars
  feed_unicode_digit st digits c =
      let all_digits = digits ++ c ∷ [] in
      if ltb (length all_digits) 4 then (record st { unicode_buf = some all_digits }, []) else (
        record st { unicode_buf = none },
        elim (chr_of_hex all_digits) [ some ch ↦ ch ∷ [] | none ↦ codes "\\u" ++ all_digits ],
      )

  -- The body of the loop of `feed`, after `_pos` has moved on.
  unfoldable pub feed_char : JsonFieldStreamer → ℕ → JsonFieldStreamer × Chars
  unfolding feed_unicode_digit unescape
  feed_char st c = elim st.unicode_buf [
    | some digits ↦ feed_unicode_digit st digits c
    | none ↦
        if st.escape
        then (if c == b'u'
            then (record st { unicode_buf = some []; escape = false }, [])
            else (record st { escape = false }, unescape c ∷ []))
        else if c == b'\\'
        then (record st { escape = true }, [])
        else if c == b'"'
        then (record st { done = true }, [])
        else (st, c ∷ [])
  ]

  -- The loop, over what the buffer holds from `_pos` on.
  unfoldable pub read : JsonFieldStreamer → Chars → JsonFieldStreamer × Chars
  unfolding feed_char
  read st [] = (st, [])
  read st (c ∷ cs) =
      let (next, out) = feed_char (record st { pos = st.pos + 1 }) c in
      let (end_state, more) = read next cs in
      if next.done then (next, out) else (end_state, out ++ more)

  unfoldable pub feed : JsonFieldStreamer → Chars → JsonFieldStreamer × Chars
  unfolding read scan_for_marker
  feed st [] = (st, [])
  feed st (c ∷ chunk) =
      let longer = record st { buf = st.buf ++ c ∷ chunk } in
      let (ready, here) = if st.found then (longer, true) else scan_for_marker longer in
      if st.done
      then (st, [])
      else if here
      then read ready (drop ready.pos ready.buf)
      else (ready, [])

  -- The calls of `feed` for the chunks of an answer, and all the text that they emit.
  unfoldable pub feed_all : JsonFieldStreamer → List Chars → JsonFieldStreamer × Chars
  unfolding feed
  feed_all st [] = (st, [])
  feed_all st (chunk ∷ chunks) =
      let (next, out) = feed st chunk in
      let (end_state, more) = feed_all next chunks in (end_state, out ++ more)
