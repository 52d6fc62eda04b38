-- ===== src/Metrics/Journal/Appending.antt =====
-- src/hedp/operations/operational_metrics.py: what one append promises of the journal.
use hedp.Prelude.{
  ℕ, ◌+◌, ◌<◌, ◌≤◌, ◌≡◌, ◌⊎◌, inl, inr, refl, sym, ap, subst, ◌∙◌, List, [], ◌∷◌, ◌++◌, arith, leb,
  leb→le, Result, ok, err, Bool-cases,
}
use hedp.Prelude.Lists.{length}
use hedp.Metrics.Journal.{
  JournalError, Entry, absent, other, regular, Files, maximum_bytes, total, shift_first, rotate,
  rotate_if_needed, append_bytes, append_after, append,
}

pub append-append : {A : Type 0} (xs ys zs : List A) → (xs ++ ys) ++ zs ≡ xs ++ (ys ++ zs)
append-append [] ys zs = refl
append-append (x ∷ xs) ys zs = ap (◌∷◌ x) (append-append xs ys zs)

module _ {Line : Type 0} (size : Line → ℕ) where
  abbrev pub lines_of : Entry Line → List Line
  lines_of absent = []
  lines_of other = []
  lines_of (regular lines) = lines

  -- What the journal holds, from the oldest line to the newest.
  abbrev pub view : Files Line → List Line
  view files = lines_of files.second ++ (lines_of files.first ++ lines_of files.active)

  -- A file that is there has no room for what comes after it.
  abbrev pub IsFull : Entry Line → Entry Line → Type 0
  IsFull file next =
      (lines_of file ≡ [])
      ⊎ (maximum_bytes < total size (lines_of file) + total size (lines_of next))

  abbrev pub AllFull : Files Line → Type 0
  AllFull files = IsFull files.first files.active × IsFull files.second files.first

  abbrev pub IsSafe : Entry Line → Type 0
  IsSafe other = ⊥
  IsSafe _ = Unit

  abbrev pub AllSafe : Files Line → Type 0
  AllSafe files = IsSafe files.active × IsSafe files.first × IsSafe files.second

  -- A file is within its size, or is one line that alone is larger.
  abbrev pub IsBounded : Entry Line → Type 0
  IsBounded entry = (total size (lines_of entry) ≤ maximum_bytes) ⊎ (length (lines_of entry) ≤ 1)

  abbrev pub AllBounded : Files Line → Type 0
  AllBounded files = IsBounded files.active × IsBounded files.first × IsBounded files.second

  pub append_nil : (xs : List Line) → xs ≡ xs ++ []
  append_nil [] = refl
  append_nil (x ∷ xs) = ap (◌∷◌ x) (append_nil xs)

  pub total-append : (xs ys : List Line) → total size (xs ++ ys) ≡ total size xs + total size ys
  total-append [] ys = omega arith
  total-append (x ∷ xs) ys = omega (arith, total-append xs ys)

  pub total-last :
      (xs : List Line) (line : Line) → total size (xs ++ line ∷ []) ≡ total size xs + size line
  total-last xs line = omega (arith, total-append xs (line ∷ []))

  -- What is kept as a line comes in: all, or, once the active file is full, all but the second
  -- generation.
  abbrev pub Forgets : Files Line → ℕ → List Line → Type 0
  Forgets files incoming kept =
      (kept ≡ view files)
      ⊎ ((kept ≡ lines_of files.first ++ lines_of files.active)
          × (maximum_bytes < total size (lines_of files.active) + incoming))

  -- The files once the line has come in.
  abbrev AllFullWith : ℕ → Files Line → Type 0
  AllFullWith incoming files =
      ((lines_of files.first ≡ [])
        ⊎ (maximum_bytes
            < total size (lines_of files.first) + (total size (lines_of files.active) + incoming)))
      × IsFull files.second files.first

  -- What a rotation leaves: the newest lines, room for the incoming line or no line at all, and
  -- every file still safe and within its size.
  abbrev Ready : Files Line → ℕ → Result JournalError (Unit {0}) × Files Line → Type 0
  Ready files incoming (result, after) =
      (result ≡ ok tt)
      × AllSafe after
      × Forgets files incoming (view after)
      × (AllBounded files → AllBounded after)
      × (AllFull files → AllFullWith incoming after)
      × ((lines_of after.active ≡ [])
          ⊎ (total size (lines_of after.active) + incoming ≤ maximum_bytes))

  rotated-Ready :
      (lines : List Line) (f s : Entry Line) (incoming : ℕ)
      → IsSafe f
      → maximum_bytes < total size lines + incoming
      → Ready
          (record { active = regular lines; first = f; second = s })
          incoming
          (ok tt, record { active = absent; first = regular lines; second = f })
  rotated-Ready lines f s incoming safe_f full = (
    refl,
    (tt, tt, safe_f),
    inr (ap (λ xs. lines_of f ++ xs) (sym (append_nil lines)), full),
    (λ (a, bounded_f, _). (inr (omega arith), a, bounded_f)),
    (λ (full_f, _). (inr (omega (arith, full)), full_f)),
    inl refl,
  )

  rotate-Ready :
      (lines : List Line) (f s : Entry Line) (incoming : ℕ)
      → IsSafe f
      → IsSafe s
      → maximum_bytes < total size lines + incoming
      → (let files : Files Line = record { active = regular lines; first = f; second = s } in
          Ready files incoming (rotate size files s))
  unfolding rotate shift_first
  rotate-Ready lines absent absent incoming safe_f safe_s full =
      rotated-Ready lines absent absent incoming tt full
  rotate-Ready lines (regular fs) absent incoming safe_f safe_s full =
      rotated-Ready lines (regular fs) absent incoming tt full
  rotate-Ready lines absent (regular ss) incoming safe_f safe_s full =
      rotated-Ready lines absent (regular ss) incoming tt full
  rotate-Ready lines (regular fs) (regular ss) incoming safe_f safe_s full =
      rotated-Ready lines (regular fs) (regular ss) incoming tt full
  rotate-Ready lines other s incoming safe_f safe_s full = absurd safe_f
  rotate-Ready lines f other incoming safe_f safe_s full = absurd safe_s

  grown-IsFull :
      (f : Entry Line) (active incoming : ℕ)
      → (lines_of f ≡ []) ⊎ (maximum_bytes < total size (lines_of f) + active)
      → (lines_of f ≡ []) ⊎ (maximum_bytes < total size (lines_of f) + (active + incoming))
  grown-IsFull f active incoming (inl empty) = inl empty
  grown-IsFull f active incoming (inr full) = inr (omega (arith, full))

  kept-Ready :
      (a f s : Entry Line) (incoming : ℕ)
      → IsSafe a
      → IsSafe f
      → IsSafe s
      → (lines_of a ≡ []) ⊎ (total size (lines_of a) + incoming ≤ maximum_bytes)
      → (let files : Files Line = record { active = a; first = f; second = s } in
          Ready files incoming (ok tt, files))
  kept-Ready a f s incoming safe_a safe_f safe_s room = (
    refl,
    (safe_a, safe_f, safe_s),
    inl refl,
    (λ bounded. bounded),
    (λ (full_f, full_s). (grown-IsFull f (total size (lines_of a)) incoming full_f, full_s)),
    room,
  )

  rotate_if_needed-Ready :
      (a f s : Entry Line) (incoming : ℕ)
      → IsSafe a
      → IsSafe f
      → IsSafe s
      → (let files : Files Line = record { active = a; first = f; second = s } in
          Ready files incoming (rotate_if_needed size files incoming a))
  unfolding rotate_if_needed
  rotate_if_needed-Ready absent f s incoming safe_a safe_f safe_s =
      kept-Ready absent f s incoming safe_a safe_f safe_s (inl refl)
  rotate_if_needed-Ready other f s incoming safe_a safe_f safe_s = absurd safe_a
  rotate_if_needed-Ready (regular lines) f s incoming safe_a safe_f safe_s =
      elim (Bool-cases (leb (total size lines + incoming) maximum_bytes)) [
        | inl fits ↦ rw (fits) (
            kept-Ready (regular lines) f s incoming tt safe_f safe_s
              (inr (leb→le (total size lines + incoming) maximum_bytes fits)))
        | inr full ↦ rw (full) (rotate-Ready lines f s incoming safe_f safe_s (ground arith))
      ]

  -- What an append promises of a journal: it returns; all is kept, or, once the active file is full,
  -- all but the second generation, and the new line is the last; and the files are safe, and within
  -- their sizes and full if they were.
  abbrev pub Appends : Files Line → Line → Result JournalError (Unit {0}) × Files Line → Type 0
  Appends files line (result, after) =
      (result ≡ ok tt)
      × AllSafe after
      × (kept : List Line) × Forgets files (size line) kept
      × (view after ≡ kept ++ line ∷ [])
      × (AllBounded files → AllBounded after)
      × (AllFull files → AllFull after)

  shape :
      (s f a : List Line) (line : Line)
      → s ++ (f ++ (a ++ line ∷ [])) ≡ (s ++ (f ++ a)) ++ line ∷ []
  shape s f a line =
      ap (λ xs. s ++ xs) (sym (append-append f a (line ∷ [])))
      ∙ sym (append-append s (f ++ a) (line ∷ []))

  extended-IsBounded :
      (lines : List Line) (line : Line)
      → (lines ≡ []) ⊎ (total size lines + size line ≤ maximum_bytes)
      → IsBounded (regular (lines ++ line ∷ []))
  extended-IsBounded lines line (inl empty) =
      inr (subst (λ xs. length (xs ++ line ∷ []) ≤ 1) (sym empty) (omega arith))
  extended-IsBounded lines line (inr fits) = inl (omega (arith, total-last lines line))

  extended-IsFull :
      (f : Entry Line) (lines : List Line) (line : Line)
      → (lines_of f ≡ [])
        ⊎ (maximum_bytes < total size (lines_of f) + (total size lines + size line))
      → IsFull f (regular (lines ++ line ∷ []))
  extended-IsFull f lines line (inl empty) = inl empty
  extended-IsFull f lines line (inr full) = inr (omega (arith, full, total-last lines line))

  append_bytes-Appends :
      (files : Files Line) (line : Line) (a f s : Entry Line)
      → (let before : Files Line = record { active = a; first = f; second = s } in
          Ready files (size line) (ok tt, before)
          → Appends files line (append_bytes size before line a))
  unfolding append_bytes
  append_bytes-Appends files line absent f s
        (_, (safe_a, safe_f, safe_s), forgets, bounded, full, room) =
      (
        refl,
        (tt, safe_f, safe_s),
        lines_of s ++ (lines_of f ++ []),
        forgets,
        shape (lines_of s) (lines_of f) [] line,
        (λ old.
            let (_, bounded_f, bounded_s) = bounded old in
            (inr (omega arith), bounded_f, bounded_s)),
        (λ old. let (full_f, full_s) = full old in (extended-IsFull f [] line full_f, full_s)),
      )
  append_bytes-Appends files line other f s (_, (safe_a, _, _), _, _, _, _) = absurd safe_a
  append_bytes-Appends files line (regular lines) f s
        (_, (safe_a, safe_f, safe_s), forgets, bounded, full, room) =
      (
        refl,
        (tt, safe_f, safe_s),
        lines_of s ++ (lines_of f ++ lines),
        forgets,
        shape (lines_of s) (lines_of f) lines line,
        (λ old.
            let (_, bounded_f, bounded_s) = bounded old in
            (extended-IsBounded lines line room, bounded_f, bounded_s)),
        (λ old. let (full_f, full_s) = full old in (extended-IsFull f lines line full_f, full_s)),
      )

  append_after-Appends :
      (files : Files Line) (line : Line) (outcome : Result JournalError (Unit {0}) × Files Line)
      → Ready files (size line) outcome
      → Appends files line (append_after size line outcome)
  append_after-Appends files line (ok _, after) ready =
      append_bytes-Appends files line after.active after.first after.second ready
  append_after-Appends files line (err e, after) (returned, _, _, _, _, _) = cc

  -- An append to a journal without links or other kinds of files keeps the promise of the log: it
  -- returns, it drops at most the second generation, and that only once the active file is full, the
  -- new line is the last, and no file grows beyond a mebibyte except by a single line that alone is
  -- larger.
  pub append-Appends :
      (files : Files Line) (line : Line)
      → AllSafe files
      → Appends files line (append size files line)
  unfolding append
  append-Appends files line (safe_a, safe_f, safe_s) =
      append_after-Appends files line (rotate_if_needed size files (size line) files.active) (
        rotate_if_needed-Ready files.active files.first files.second (size line) safe_a safe_f
          safe_s)
