-- ===== src/Binmap/Branches.antt =====
-- The branches of `is_empty` and `is_filled`, and the start of `trace`.
use libswift.Base.{◌≡◌, refl, ◌∙◌, Bool, true, false, not, ◌||◌, [], ◌∷◌, if◌then◌else◌}
use libswift.Bin.{Bin, contains}
use libswift.Binmap.Heap.{Binmap, trace, trace_loop}
use libswift.Binmap.Query.{is_empty_all, is_empty, is_filled}
use libswift.Binmap.Ask.{answers}

pub trace_lem : (s : Binmap) (x : Bin) → trace s x ≡ trace_loop 64 s x 0 s.root_bin (0 ∷ [])
unfolding trace
trace_lem s x = refl

-- The branches of the two questions.
abbrev choose : Bool → Bool → Bool → Bool
choose known other answer = if not known then other else answer

module _ (s : Binmap) (x : Bin) where
  is_empty_lem :
      is_empty s x
      ≡ choose
          (contains s.root_bin x)
          (not (contains x s.root_bin) || is_empty_all s)
          (answers false s x (trace s x).ref (trace s x).bin)
  unfolding is_empty
  is_empty_lem = refl

  is_filled_lem :
      is_filled s x
      ≡ choose (contains s.root_bin x) false (answers true s x (trace s x).ref (trace s x).bin)
  unfolding is_filled
  is_filled_lem = refl

  pub empty_within :
      contains s.root_bin x ≡ true
      → is_empty s x ≡ answers false s x (trace s x).ref (trace s x).bin
  empty_within e = is_empty_lem ∙ rw e refl

  pub empty_above :
      contains s.root_bin x ≡ false → contains x s.root_bin ≡ true → is_empty s x ≡ is_empty_all s
  empty_above e f = is_empty_lem ∙ rw (e, f) refl

  pub empty_apart :
      contains s.root_bin x ≡ false → contains x s.root_bin ≡ false → is_empty s x ≡ true
  empty_apart e f = is_empty_lem ∙ rw (e, f) refl

  pub filled_within :
      contains s.root_bin x ≡ true
      → is_filled s x ≡ answers true s x (trace s x).ref (trace s x).bin
  filled_within e = is_filled_lem ∙ rw e refl

  pub filled_beyond : contains s.root_bin x ≡ false → is_filled s x ≡ false
  filled_beyond e = is_filled_lem ∙ rw e refl
