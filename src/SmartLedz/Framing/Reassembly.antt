-- ===== src/SmartLedz/Framing/Reassembly.antt =====
-- `reassemble` on the frames of one message, in any order.
use mathlib.Core.List.{Permᴰ}
use hedp.Prelude.{
  ℕ, ◌<◌, ◌≡◌, sym, ap, ◌∙◌, Bool, true, false, not, List, [], ◌∷◌, arith, ◌==◌, length, any,
  any_none, All, All-imp, ok,
}
use hedp.Prelude.Bytes.{Bytes}
use hedp.Prelude.Sorting.{sorted, sorted_of_Ascending, sorted_perm, All-perm, length-perm}
use hedp.SmartLedz.Framing.{
  Frame, reassemble, reassemble_fragments, fragmented, same_bool, same_length, indexes_from, join,
  by_index,
}
use hedp.SmartLedz.Framing.Slices.{concat}
use hedp.SmartLedz.Framing.Fragments.{
  fragments, join-fragments, length-fragments, fragments-Ascending, fragments-KeysDiffer,
  fragments_indexed, Shares, fragments-Shares,
}

module _ (id : ℕ) (n : Bool) (count total : ℕ) (many : 1 < count) where
  no_stranger :
      (p : Frame → Bool) (fs : List Frame)
      → ((f : Frame) → Shares id n count total f → p f ≡ false)
      → All (Shares id n count total) fs
      → any p fs ≡ false
  no_stranger p fs same h = any_none p fs (All-imp _ _ fs same h)

  -- Complete frames that share their fields are joined in the order of their indexes.
  reassemble-Shares :
      (first : Frame) (fs : List Frame)
      → Shares id n count total first
      → All (Shares id n count total) fs
      → length fs ≡ count
      → indexes_from 0 (sorted by_index fs) ≡ true
      → length (join (sorted by_index fs)) ≡ total
      → reassemble_fragments first fs ≡ ok (join (sorted by_index fs))
  unfolding reassemble_fragments
  reassemble-Shares first fs head share counted indexed full = ground (
    arith,
    no_stranger (λ f. not (fragmented f)) fs (λ f h. ground arith) share,
    no_stranger (λ f. not (f.request_id == first.request_id)) fs (λ f h. ground arith) share,
    no_stranger (λ f. not (same_bool f.notification first.notification)) fs (λ f h. ground arith)
        share,
    no_stranger (λ f. not (f.fragment_count == first.fragment_count)) fs (λ f h. ground arith)
        share,
    no_stranger (λ f. not (same_length f.total_length first.total_length)) fs (λ f h. ground arith)
        share,
  )

  reassemble_many :
      (frames : List Frame)
      → All (Shares id n count total) frames
      → length frames ≡ count
      → indexes_from 0 (sorted by_index frames) ≡ true
      → length (join (sorted by_index frames)) ≡ total
      → reassemble frames ≡ ok (join (sorted by_index frames))
  unfolding reassemble
  reassemble_many [] share counted indexed full = absurd (omega arith)
  reassemble_many (first ∷ rest) share counted indexed full =
      ground (arith, reassemble-Shares first (first ∷ rest) share.0 share)

  module _ (cs : List Bytes) (frames : List Frame) where
    pub reassemble-fragments_perm :
        length cs ≡ count
        → length (concat cs) ≡ total
        → Permᴰ (fragments id n count total 0 cs) frames
        → reassemble frames ≡ ok (concat cs)
    reassemble-fragments_perm counted full p =
        let in_order : sorted by_index frames ≡ fragments id n count total 0 cs =
          sym (sorted_perm by_index p (fragments-KeysDiffer id n count total 0 cs))
          ∙ sorted_of_Ascending by_index _ (fragments-Ascending id n count total 0 cs) in
        let joined : join (sorted by_index frames) ≡ concat cs =
          ap join in_order ∙ join-fragments id n count total 0 cs in
        reassemble_many frames
          (All-perm (Shares id n count total) p (fragments-Shares id n count total 0 cs))
          (sym (length-perm p) ∙ length-fragments id n count total 0 cs ∙ counted)
          (ap (indexes_from 0) in_order ∙ fragments_indexed id n count total 0 cs)
          (ap length joined ∙ full)
        ∙ ap ok joined
