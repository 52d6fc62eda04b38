-- ===== src/Warema/Stream/Chunks.antt =====
-- How `feed` cuts what arrives: the frames do not depend on the chunks, and what is kept holds no `}`.
use mathlib.Core.List.{append_assoc}
use hedp.Prelude.{
  ℕ, ◌≤◌, ◌≡◌, refl, sym, ap, ◌∙◌, Bool-cases, inl, inr, false, List, ◌++◌, arith, ltb, length, any,
  Result, ok,
}
use hedp.Prelude.Bytes.{Bytes}
use hedp.Warema.Protocol.{Text, Frame, FrameError}
use hedp.Warema.Stream.{FrameStream, drain, with_buffer, feed}
use hedp.Warema.Stream.Drain.{is_close, prepend, drain-append, drain-rest, drain-length}

module _ (upper_other : ℕ → Text) where
  feed-drains :
      (s s' : FrameStream) (c : Bytes) (fs : List Frame)
      → feed upper_other s c ≡ (ok fs, s')
      → (length (s.buffer ++ c) ≤ s.max_buffer)
        × (drain upper_other (length (s.buffer ++ c)) (s.buffer ++ c) ≡ (ok fs, s'.buffer))
        × (s.max_buffer ≡ s'.max_buffer)
  unfolding feed
  feed-drains s s' c fs h = elim (Bool-cases (ltb s.max_buffer (length (s.buffer ++ c)))) [
    | inl exceeded ↦ (let bad = rw (feed, exceeded) at h in cc)
    | inr within ↦
        let e = rw (feed, within) at h in
        (
          ground arith,
          λ i. ((e i).0, (e i).1.buffer),
          ap (λ (p : Result FrameError (List Frame) × FrameStream). p.1.max_buffer) e,
        )
  ]

  feed-drained :
      (s : FrameStream) (c : Bytes) (fs : List Frame) (r : Bytes)
      → length (s.buffer ++ c) ≤ s.max_buffer
      → drain upper_other (length (s.buffer ++ c)) (s.buffer ++ c) ≡ (ok fs, r)
      → feed upper_other s c ≡ (ok fs, with_buffer s r)
  unfolding feed
  feed-drained s c fs r within h =
      let inside : ltb s.max_buffer (length (s.buffer ++ c)) ≡ false = ground arith in
      rw (feed, inside, h) refl

  -- `feed` with the bytes of two chunks at once, if each of two calls returns and all of it is within
  -- the limit, returns the frames of both and leaves the same stream.
  pub feed-append :
      (s s1 s2 : FrameStream) (c1 c2 : Bytes) (fs gs : List Frame)
      → length (s.buffer ++ (c1 ++ c2)) ≤ s.max_buffer
      → feed upper_other s c1 ≡ (ok fs, s1)
      → feed upper_other s1 c2 ≡ (ok gs, s2)
      → feed upper_other s (c1 ++ c2) ≡ (ok (fs ++ gs), s2)
  unfolding feed
  feed-append s s1 s2 c1 c2 fs gs h e1 e2 =
      let (_, d1, m1) = feed-drains s s1 c1 fs e1 in
      let (_, d2, m2) = feed-drains s1 s2 c2 gs e2 in
      let assoc = append_assoc s.buffer c1 c2 in
      let size = ap length assoc in
      let both : drain upper_other (length (s.buffer ++ (c1 ++ c2))) (s.buffer ++ (c1 ++ c2))
          ≡ (ok (fs ++ gs), s2.buffer) =
        ap (drain upper_other (length (s.buffer ++ (c1 ++ c2)))) (sym assoc)
        ∙ drain-append upper_other (length (s.buffer ++ c1)) (length (s.buffer ++ (c1 ++ c2)))
            (length (s1.buffer ++ c2)) (s.buffer ++ c1) c2 fs s1.buffer (omega arith) d1
            (omega arith) (omega arith)
        ∙ ap (prepend upper_other fs) d2 in
      feed-drained s (c1 ++ c2) (fs ++ gs) s2.buffer h both
      ∙ ap (λ (m : ℕ). (ok (fs ++ gs), record { buffer = s2.buffer; max_buffer = m })) (m1 ∙ m2)

  -- `feed` keeps the limit and, whether it returns or raises, leaves a buffer within it.
  pub feed-bounded :
      (s : FrameStream) (c : Bytes)
      → let s' = (feed upper_other s c).1 in
        (s'.max_buffer ≡ s.max_buffer) × (length s'.buffer ≤ s.max_buffer)
  unfolding feed
  feed-bounded s c = elim (Bool-cases (ltb s.max_buffer (length (s.buffer ++ c)))) [
    | inl exceeded ↦ rw (feed, exceeded) (refl, omega arith)
    | inr within ↦
        let kept = drain-length upper_other (length (s.buffer ++ c)) (s.buffer ++ c) in
        rw (feed, within) (refl, ground arith)
  ]

  -- A call of `feed` that returns leaves no `}` in the buffer: every frame that is complete has been cut
  -- off.
  pub feed_complete :
      (s s' : FrameStream) (c : Bytes) (fs : List Frame)
      → feed upper_other s c ≡ (ok fs, s')
      → any is_close s'.buffer ≡ false
  feed_complete s s' c fs h =
      let (_, drained, _) = feed-drains s s' c fs h in
      (drain-rest upper_other (length (s.buffer ++ c)) (s.buffer ++ c) fs s'.buffer (omega arith)
        drained).0
