-- ===== src/Executor/Streamer/Chunks.antt =====
-- What `feed` emits does not depend on how the text is cut into chunks.
use glassrail.Common.{
  Bool-cases, Chars, List, Option, [], ap, append_assoc, append-nil, arith, concat, drop-append,
  false, inl, inr, length, length-append, refl, sym, true, ℕ, ◌++◌, ◌+◌, ◌∙◌, ◌∷◌, ◌≡◌, nat_eq,
}
use glassrail.Executor.Streamer.{
  JsonFieldStreamer, feed_unicode_digit, feed_char, read, feed, feed_all,
}

-- A streamer that has read the same characters from another buffer.
abbrev pub moved : JsonFieldStreamer → Chars → ℕ → JsonFieldStreamer
moved st b k = record st { buf = b; pos = k }

module _ (chr_of_hex : Chars → Option ℕ) where
  feed_char-moved :
      (st : JsonFieldStreamer) (b : Chars) (k : ℕ) (c : ℕ)
      → feed_char chr_of_hex (moved st b k) c
        ≡ (moved (feed_char chr_of_hex st c).0 b k, (feed_char chr_of_hex st c).1)
  unfolding feed_char
  feed_char-moved st b k c = ground arith

  feed_char-keeps :
      (st : JsonFieldStreamer) (c : ℕ)
      → ((feed_char chr_of_hex st c).0.found ≡ st.found)
        × ((feed_char chr_of_hex st c).0.buf ≡ st.buf)
        × ((feed_char chr_of_hex st c).0.pos ≡ st.pos)
  unfolding feed_char feed_unicode_digit
  feed_char-keeps st c = ground arith

  -- The state after one turn of the loop of `feed`.
  abbrev pub turn : JsonFieldStreamer → ℕ → JsonFieldStreamer × Chars
  turn st c = feed_char chr_of_hex (record st { pos = st.pos + 1 }) c

  read-stops :
      (st : JsonFieldStreamer) (c : ℕ) (cs : Chars)
      → (turn st c).0.done ≡ true
      → read chr_of_hex st (c ∷ cs) ≡ turn st c
  unfolding read
  read-stops st c cs e = ground (arith, e)

  pub read-goes_on :
      (st : JsonFieldStreamer) (c : ℕ) (cs : Chars)
      → (turn st c).0.done ≡ false
      → read chr_of_hex st (c ∷ cs) ≡ (
        (read chr_of_hex (turn st c).0 cs).0,
        (turn st c).1 ++ (read chr_of_hex (turn st c).0 cs).1,
      )
  unfolding read
  read-goes_on st c cs e = ground (arith, e)

  read-moved :
      (st : JsonFieldStreamer) (cs b : Chars) (k : ℕ)
      → (j : ℕ) × (read chr_of_hex (moved st b k) cs
          ≡ (moved (read chr_of_hex st cs).0 b j, (read chr_of_hex st cs).1))
  read-moved st [] b k = (k, unfold read in refl)
  read-moved st (c ∷ cs) b k =
      let same = feed_char-moved (record st { pos = st.pos + 1 }) b (k + 1) c in
      let (j, e) = read-moved (turn st c).0 cs b (k + 1) in
      elim (Bool-cases (turn st c).0.done) [
        | inl f ↦
            (k + 1, rw (read-stops st c cs f, read-stops (moved st b k) c cs (rw same f)) same)
        | inr f ↦ (
          j,
          rw (read-goes_on st c cs f, read-goes_on (moved st b k) c cs (rw same f), same, e) refl,
        )
      ]

  -- A loop that does not see the closing quote goes to the end of the buffer.
  read-end :
      (st : JsonFieldStreamer) (cs : Chars)
      → (read chr_of_hex st cs).0.done ≡ false
      → ((read chr_of_hex st cs).0.pos ≡ st.pos + length cs)
        × ((read chr_of_hex st cs).0.buf ≡ st.buf)
        × ((read chr_of_hex st cs).0.found ≡ st.found)
  read-end st [] e = unfold read in (omega arith, refl, refl)
  read-end st (c ∷ cs) e =
      let (found, buf, here) = feed_char-keeps (record st { pos = st.pos + 1 }) c in
      elim (Bool-cases (turn st c).0.done) [
        | inl f ↦ absurd (ground (arith, f, ap (λ r. r.0.done) (read-stops st c cs f), e))
        | inr f ↦
            let same = read-goes_on st c cs f in
            let (at_end, kept, still) =
              read-end (turn st c).0 cs (ap (λ r. r.0.done) (sym same) ∙ e) in
            rw same (omega (arith, at_end, here), kept ∙ buf, still ∙ found)
      ]

  not_stopped :
      (st : JsonFieldStreamer) (c : ℕ) (cs : Chars)
      → (read chr_of_hex st (c ∷ cs)).0.done ≡ false
      → (turn st c).0.done ≡ false
  not_stopped st c cs e = elim (Bool-cases (turn st c).0.done) [
    | inl f ↦ absurd (ground (arith, f, ap (λ r. r.0.done) (read-stops st c cs f), e))
    | inr f ↦ f
  ]

  read-append :
      (st : JsonFieldStreamer) (xs ys : Chars)
      → (read chr_of_hex st xs).0.done ≡ false
      → read chr_of_hex st (xs ++ ys) ≡ (
        (read chr_of_hex (read chr_of_hex st xs).0 ys).0,
        (read chr_of_hex st xs).1 ++ (read chr_of_hex (read chr_of_hex st xs).0 ys).1,
      )
  read-append st [] ys e = unfold read in refl
  read-append st (c ∷ xs) ys e =
      let f = not_stopped st c xs e in
      let later =
        read-append (turn st c).0 xs ys (ap (λ r. r.0.done) (sym (read-goes_on st c xs f)) ∙ e) in
      rw (read-goes_on st c (xs ++ ys) f, read-goes_on st c xs f, later)
        (ap (λ text. ((read chr_of_hex (read chr_of_hex (turn st c).0 xs).0 ys).0, text))
          (sym (
            append_assoc (turn st c).1 (read chr_of_hex (turn st c).0 xs).1
              (read chr_of_hex (read chr_of_hex (turn st c).0 xs).0 ys).1)))

  read-append_done :
      (st : JsonFieldStreamer) (xs ys : Chars)
      → st.done ≡ false
      → (read chr_of_hex st xs).0.done ≡ true
      → read chr_of_hex st (xs ++ ys) ≡ read chr_of_hex st xs
  read-append_done st [] ys d e = absurd (unfold read in ground (arith, d, e))
  read-append_done st (c ∷ xs) ys d e = elim (Bool-cases (turn st c).0.done) [
    | inl f ↦ rw (read-stops st c xs f, read-stops st c (xs ++ ys) f) refl
    | inr f ↦
        let later =
          read-append_done (turn st c).0 xs ys f
            (ap (λ r. r.0.done) (sym (read-goes_on st c xs f)) ∙ e) in
        rw (read-goes_on st c xs f, read-goes_on st c (xs ++ ys) f, later) refl
  ]

  feed-read :
      (st : JsonFieldStreamer) (chunk : Chars)
      → st.found ≡ true
      → st.done ≡ false
      → st.pos ≡ length st.buf
      → feed chr_of_hex st chunk ≡ read chr_of_hex (moved st (st.buf ++ chunk) st.pos) chunk
  unfolding feed
  feed-read st [] found going at_end = unfold read in rw (append-nil st.buf) refl
  feed-read st (c ∷ chunk) found going at_end =
      rw (going, found, at_end, drop-append st.buf (c ∷ chunk)) refl

  pub feed-done :
      (st : JsonFieldStreamer) (chunk : Chars)
      → st.done ≡ true
      → feed chr_of_hex st chunk ≡ (st, [])
  unfolding feed
  feed-done st [] e = refl
  feed-done st (c ∷ chunk) e = ground (arith, e)

  feed_all-done :
      (st : JsonFieldStreamer) (chunks : List Chars)
      → st.done ≡ true
      → feed_all chr_of_hex st chunks ≡ (st, [])
  unfolding feed_all
  feed_all-done st [] e = refl
  feed_all-done st (chunk ∷ chunks) e = rw (feed-done st chunk e, feed_all-done st chunks e) refl

  -- After the marker was found: the chunks emit what one pass over their concatenation emits.
  pub feed_all_lem :
      (st : JsonFieldStreamer) (chunks : List Chars)
      → st.found ≡ true
      → st.done ≡ false
      → st.pos ≡ length st.buf
      → (b : Chars) × (k : ℕ) × (feed_all chr_of_hex st chunks ≡ (
        moved (read chr_of_hex st (concat chunks)).0 b k,
        (read chr_of_hex st (concat chunks)).1,
      ))
  unfolding feed_all concat
  feed_all_lem st [] found going at_end = (st.buf, st.pos, unfold read in refl)
  feed_all_lem st (chunk ∷ chunks) found going at_end =
      let next = read chr_of_hex st chunk in
      let (j, same) = read-moved st chunk (st.buf ++ chunk) st.pos in
      let fed = feed-read st chunk found going at_end ∙ same in
      let moved_end : next.0.done ≡ false → (next.0.found ≡ true) × (j ≡ length (st.buf ++ chunk)) =
        λ f.
          let (pos', _, still) =
            read-end (moved st (st.buf ++ chunk) st.pos) chunk (ap (λ r. r.0.done) same ∙ f) in
          (
            ap (λ r. r.0.found) (sym same) ∙ still ∙ found,
            omega (arith, ap (λ r. r.0.pos) (sym same) ∙ pos', at_end, length-append st.buf chunk),
          ) in
      elim (Bool-cases next.0.done) [
        | inl f ↦ (
          st.buf ++ chunk,
          j,
          rw
              (
                fed,
                feed_all-done (moved next.0 (st.buf ++ chunk) j) chunks f,
                read-append_done st chunk (concat chunks) going f,
                append-nil next.1,
              )
              refl,
        )
        | inr f ↦
            let (b, k, e) =
              feed_all_lem (moved next.0 (st.buf ++ chunk) j) chunks (moved_end f).0 f
                (moved_end f).1 in
            let (i, again) = read-moved next.0 (concat chunks) (st.buf ++ chunk) j in
            (b, k, rw (fed, e, again, read-append st chunk (concat chunks) f) refl)
      ]
