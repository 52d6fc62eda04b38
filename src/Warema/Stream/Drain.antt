-- ===== src/Warema/Stream/Drain.antt =====
-- The loop of `feed`: the bound on its rounds, and what more bytes at the end of the buffer change.
use hedp.Prelude.{
  ℕ, zero, suc, ◌≤◌, ◌≡◌, refl, sym, ap, ◌∙◌, subst, Bool, inl, inr, false, Option-cases, none,
  some, List, [], ◌∷◌, ◌++◌, arith, ◌==◌, length, any, length-append, Result, ok, err, Result-cases,
  bind_returns, ◌>>=◌,
}
use hedp.Prelude.Bytes.{Bytes}
use hedp.Warema.Protocol.{Text, Frame, FrameError, decode_frame}
use hedp.Warema.Stream.{split_close, from_open, add_frame, drain}

-- What the loop returns or raises, and the bytes it leaves.
abbrev pub Drained : Type 0
Drained = Result FrameError (List Frame) × Bytes

abbrev pub is_close : ℕ → Bool
is_close b = b == 0x7D

split_close-length :
    (b candidate rest : Bytes)
    → split_close b ≡ some (candidate, rest)
    → suc (length rest) ≤ length b
unfolding split_close
split_close-length [] candidate rest h = cc
split_close-length (x ∷ b) candidate rest h = elim (Option-cases (split_close b)) [
  | inl nothing ↦ ground arith
  | inr ((c, r), found) ↦ (let shorter = split_close-length b c r found in ground arith)
]

-- More bytes after a `}` do not move it.
split_close-append :
    (b candidate rest more : Bytes)
    → split_close b ≡ some (candidate, rest)
    → split_close (b ++ more) ≡ some (candidate, rest ++ more)
unfolding split_close
split_close-append [] candidate rest more h = cc
split_close-append (x ∷ b) candidate rest more h = elim (Option-cases (split_close b)) [
  | inl nothing ↦ ground arith
  | inr ((c, r), found) ↦ (let longer = split_close-append b c r more found in ground arith)
]

split_close-none : (b : Bytes) → split_close b ≡ none → any is_close b ≡ false
unfolding split_close
split_close-none [] h = refl
split_close-none (x ∷ b) h = elim (Option-cases (split_close b)) [
  | inl nothing ↦ (let others = split_close-none b nothing in ground arith)
  | inr ((c, r), found) ↦ ground arith
]

module _ (upper_other : ℕ → Text) where
  abbrev pub prepend : List Frame → Drained → Drained
  prepend fs (frames, last) = (frames >>= λ gs. ok (fs ++ gs), last)

  -- The bound on the rounds does not matter from the length of the buffer on.
  drain-enough :
      (n m : ℕ) (b : Bytes)
      → length b ≤ n
      → length b ≤ m
      → drain upper_other n b ≡ drain upper_other m b
  unfolding drain split_close
  drain-enough zero zero b hn hm = refl
  drain-enough zero (suc m) [] hn hm = refl
  drain-enough zero (suc m) (x ∷ b) hn hm = absurd (omega arith)
  drain-enough (suc n) zero [] hn hm = refl
  drain-enough (suc n) zero (x ∷ b) hn hm = absurd (omega arith)
  drain-enough (suc n) (suc m) b hn hm = elim (Option-cases (split_close b)) [
    | inl nothing ↦ rw (drain, nothing) refl
    | inr ((candidate, rest), found) ↦
        let shorter = split_close-length b candidate rest found in
        rw (drain, found, drain-enough n m rest (omega arith) (omega arith)) refl
  ]

  prepend-cons :
      (f : Frame) (gs : List Frame) (later : Drained)
      → ((prepend gs later).0 >>= λ hs. ok (f ∷ hs), (prepend gs later).1) ≡ prepend (f ∷ gs) later
  prepend-cons f gs (ok hs, last) = refl
  prepend-cons f gs (err e, last) = refl

  prepend-nil : (later : Drained) → prepend [] later ≡ later
  prepend-nil (ok hs, last) = refl
  prepend-nil (err e, last) = refl

  -- A round that does not raise adds its frames before those of any further rounds.
  add_frame-prepend :
      (candidate rest : Bytes) (further : Drained) (fs : List Frame) (r : Bytes)
      → add_frame upper_other candidate rest further ≡ (ok fs, r)
      → (gs : List Frame) × (further ≡ (ok gs, r))
        × ((rest' : Bytes) (later : Drained)
            → add_frame upper_other candidate rest' (prepend gs later) ≡ prepend fs later)
  unfolding add_frame
  add_frame-prepend candidate rest further fs r h = elim (Option-cases (from_open candidate)) [
    | inl nothing ↦ (fs, rw (add_frame, nothing) at h, λ rest' later. rw (add_frame, nothing) refl)
    | inr (raw, frame) ↦ elim (Result-cases (decode_frame upper_other raw)) [
      | inl (e, refused) ↦ (let bad = rw (add_frame, frame, refused) at h in cc)
      | inr (f, decoded) ↦
          let whole = rw (add_frame, frame, decoded) at h in
          let (gs, e, e') = bind_returns further.0 _ (ap (λ (p : Drained). p.0) whole) in
          let same : f ∷ gs ≡ fs = cc in
          (
            gs,
            λ i. (e i, (whole i).1),
            λ rest' later.
                rw (add_frame, frame, decoded)
                  (prepend-cons f gs later ∙ ap (λ (hs : List Frame). prepend hs later) same),
          )
    ]
  ]

  idle-append :
      (m k : ℕ) (b more : Bytes) (fs : List Frame) (r : Bytes)
      → ◌≡◌ {A = Drained} (ok [], b) (ok fs, r)
      → length (b ++ more) ≤ m
      → length (r ++ more) ≤ k
      → drain upper_other m (b ++ more) ≡ prepend fs (drain upper_other k (r ++ more))
  idle-append m k b more fs r h hm hk =
      let no_frames : [] ≡ fs = cc in
      let kept : b ≡ r = ap (λ (p : Drained). p.1) h in
      let bound = subst (λ (ys : Bytes). length (ys ++ more) ≤ k) (sym kept) hk in
      drain-enough m k (b ++ more) hm bound
      ∙ sym (prepend-nil (drain upper_other k (b ++ more)))
      ∙ λ i. prepend (no_frames i) (drain upper_other k (kept i ++ more))

  -- A buffer that is drained without an error has the same frames when more bytes follow it.
  pub drain-append :
      (n m k : ℕ) (b more : Bytes) (fs : List Frame) (r : Bytes)
      → length b ≤ n
      → drain upper_other n b ≡ (ok fs, r)
      → length (b ++ more) ≤ m
      → length (r ++ more) ≤ k
      → drain upper_other m (b ++ more) ≡ prepend fs (drain upper_other k (r ++ more))
  unfolding drain split_close
  drain-append zero m k [] more fs r hn h hm hk = idle-append m k [] more fs r h hm hk
  drain-append zero m k (x ∷ b) more fs r hn h hm hk = absurd (omega arith)
  drain-append (suc n) zero k [] more fs r hn h hm hk = idle-append zero k [] more fs r h hm hk
  drain-append (suc n) zero k (x ∷ b) more fs r hn h hm hk = absurd (omega arith)
  drain-append (suc n) (suc m) k b more fs r hn h hm hk = elim (Option-cases (split_close b)) [
    | inl nothing ↦ idle-append (suc m) k b more fs r (rw (drain, nothing) at h) hm hk
    | inr ((candidate, rest), found) ↦
        let shorter = split_close-length b candidate rest found in
        let (gs, further, adds) =
          add_frame-prepend candidate rest (drain upper_other n rest) fs r
            (rw (drain, found) at h) in
        let this_size = length-append rest more in
        let whole_size = length-append b more in
        rw
          (
            drain,
            split_close-append b candidate rest more found,
            drain-append n m k rest more gs r (omega arith) further (ground arith) hk,
          )
          (adds (rest ++ more) (drain upper_other k (r ++ more)))
  ]

  pub drain-rest :
      (n : ℕ) (b : Bytes) (fs : List Frame) (r : Bytes)
      → length b ≤ n
      → drain upper_other n b ≡ (ok fs, r)
      → (any is_close r ≡ false) × (length r ≤ length b)
  unfolding drain
  drain-rest zero [] fs r hn h =
      let kept : [] ≡ r = ap (λ (p : Drained). p.1) h in
      subst (λ (ys : Bytes). (any is_close ys ≡ false) × (length ys ≤ 0)) kept (refl, omega arith)
  drain-rest zero (x ∷ b) fs r hn h = absurd (omega arith)
  drain-rest (suc n) b fs r hn h = elim (Option-cases (split_close b)) [
    | inl nothing ↦
        let kept : b ≡ r = ap (λ (p : Drained). p.1) (rw (drain, nothing) at h) in
        subst (λ (ys : Bytes). (any is_close ys ≡ false) × (length ys ≤ length b)) kept
          (split_close-none b nothing, omega arith)
    | inr ((candidate, rest), found) ↦
        let shorter = split_close-length b candidate rest found in
        let (gs, further, adds) =
          add_frame-prepend candidate rest (drain upper_other n rest) fs r
            (rw (drain, found) at h) in
        let (closed, short) = drain-rest n rest gs r (omega arith) further in (closed, omega arith)
  ]

  add_frame-length :
      (candidate rest : Bytes) (further : Drained)
      → length further.1 ≤ length rest
      → length (add_frame upper_other candidate rest further).1 ≤ length rest
  unfolding add_frame
  add_frame-length candidate rest further h = elim (Option-cases (from_open candidate)) [
    | inl nothing ↦ rw (add_frame, nothing) h
    | inr (raw, frame) ↦ elim (Result-cases (decode_frame upper_other raw)) [
      | inl (e, refused) ↦ rw (add_frame, frame, refused) (omega arith)
      | inr (f, decoded) ↦ rw (add_frame, frame, decoded) h
    ]
  ]

  pub drain-length : (n : ℕ) (b : Bytes) → length (drain upper_other n b).1 ≤ length b
  unfolding drain
  drain-length zero b = omega arith
  drain-length (suc n) b = elim (Option-cases (split_close b)) [
    | inl nothing ↦ rw (drain, nothing) (omega arith)
    | inr ((candidate, rest), found) ↦
        let shorter = split_close-length b candidate rest found in
        let kept =
          add_frame-length candidate rest (drain upper_other n rest) (drain-length n rest) in
        rw (drain, found) (omega arith)
  ]
