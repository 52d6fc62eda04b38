-- ===== src/Metrics/Journal/Log.antt =====
-- src/hedp/operations/operational_metrics.py: the journal against a log that forgets its oldest lines.
use hedp.Prelude.{
  ℕ, ◌+◌, ◌*◌, ◌<◌, ◌≡◌, ◌⊎◌, inl, inr, refl, sym, ap, subst, ◌∙◌, List, [], ◌∷◌, ◌++◌, arith,
}
use hedp.Metrics.Journal.{Files, maximum_bytes, total, append, append_all}
use hedp.Metrics.Journal.Appending.{
  append-append, append_nil, total-append, total-last, lines_of, view, AllSafe, AllBounded, AllFull,
  Forgets, append-Appends,
}

module _ {Line : Type 0} (size : Line → ℕ) where
  -- The newest lines of a log: all of it, or, of a log of more than two full files, more than one.
  abbrev pub IsNewest : List Line → List Line → Type 0
  IsNewest kept log =
      (older : List Line) × (log ≡ older ++ kept)
      × ((older ≡ []) ⊎ ((maximum_bytes < total size kept) × (2 * maximum_bytes < total size log)))

  -- What is forgotten of full files leaves the newest lines.
  Forgets-IsNewest :
      (files : Files Line) (line : Line) (kept : List Line)
      → AllFull size files
      → Forgets size files (size line) kept
      → IsNewest (kept ++ line ∷ []) (view size files ++ line ∷ [])
  Forgets-IsNewest files line kept full (inl all_of_it) =
      ([], ap (λ v. v ++ line ∷ []) (sym all_of_it), inl refl)
  Forgets-IsNewest files line kept (_, full_second) (inr (rest, full)) =
      let s = lines_of size files.second in
      let f = lines_of size files.first in
      let a = lines_of size files.active in
      let of_kept : total size kept ≡ total size f + total size a =
        ap (total size) rest ∙ total-append size f a in
      (
        s,
        append-append s (f ++ a) (line ∷ []) ∙ ap (λ v. s ++ (v ++ line ∷ [])) (sym rest),
        elim full_second [
          | inl empty ↦ inl empty
          | inr over ↦ inr (
            omega (arith, over, full, of_kept, total-last size kept line),
            omega (
              arith,
              over,
              full,
              total-last size (s ++ (f ++ a)) line,
              total-append size s (f ++ a),
              total-append size f a,
            ),
          )
        ],
      )

  IsNewest-append :
      (kept log more : List Line) → IsNewest kept log → IsNewest (kept ++ more) (log ++ more)
  IsNewest-append kept log more (older, split, enough) = (
    older,
    ap (λ v. v ++ more) split ∙ append-append older kept more,
    elim enough [
      | inl empty ↦ inl empty
      | inr (of_kept, of_log) ↦ inr (
        omega (arith, of_kept, total-append size kept more),
        omega (arith, of_log, total-append size log more),
      )
    ],
  )

  IsNewest-trans : (xs ys zs : List Line) → IsNewest xs ys → IsNewest ys zs → IsNewest xs zs
  IsNewest-trans xs ys zs (older, split, enough) (oldest, split_zs, enough_zs) =
      let of_ys : total size ys ≡ total size older + total size xs =
        ap (total size) split ∙ total-append size older xs in
      let of_zs : total size zs ≡ total size oldest + total size ys =
        ap (total size) split_zs ∙ total-append size oldest ys in
      (
        oldest ++ older,
        split_zs ∙ ap (λ v. oldest ++ v) split ∙ sym (append-append oldest older xs),
        elim enough [
          | inr (of_xs, over) ↦ inr (of_xs, omega (arith, over, of_zs))
          | inl empty ↦
              let none_older : total size older ≡ 0 = ap (total size) empty in
              elim enough_zs [
                | inr (kept_ys, over) ↦ inr (omega (arith, kept_ys, of_ys, none_older), over)
                | inl empty_zs ↦ inl (rw (empty_zs, empty) refl)
              ]
        ],
      )

  -- Whatever is appended, in whatever number, to a journal without links or other kinds of files,
  -- whose files have been rotated only when they were full (as those of an empty journal have), the
  -- journal holds the newest lines of its log, the lines that it held at first and those that were
  -- appended since, in their order: all of them, as long as they are no larger than two full files, and
  -- from then on more than one full file of them. Its files stay within their sizes, if they were, and
  -- are still rotated only when they are full.
  pub append_all-IsNewest :
      (files : Files Line) (lines : List Line)
      → AllSafe size files
      → AllFull size files
      → IsNewest (view size (append_all size files lines)) (view size files ++ lines)
        × (AllBounded size files → AllBounded size (append_all size files lines))
        × AllFull size (append_all size files lines)
  unfolding append_all
  append_all-IsNewest files [] safe full =
      (([], sym (append_nil size (view size files)), inl refl), (λ bounded. bounded), full)
  append_all-IsNewest files (line ∷ lines) safe full =
      let (_, safe_next, kept, forgets, last, bounded, still_full) =
        append-Appends size files line safe in
      let next = (append size files line).1 in
      let (newest, still_bounded, full_after) =
        append_all-IsNewest next lines safe_next (still_full full) in
      let step : IsNewest (view size next ++ lines) ((view size files ++ line ∷ []) ++ lines) =
        IsNewest-append (view size next) (view size files ++ line ∷ []) lines (
          subst (λ v. IsNewest v (view size files ++ line ∷ [])) (sym last)
            (Forgets-IsNewest files line kept full forgets)) in
      (
        IsNewest-trans (view size (append_all size next lines)) (view size next ++ lines)
            (view size files ++ line ∷ lines) newest
            (subst (IsNewest (view size next ++ lines))
              (append-append (view size files) (line ∷ []) lines) step),
        (λ old. still_bounded (bounded old)),
        full_after,
      )
