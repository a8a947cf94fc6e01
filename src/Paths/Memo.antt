-- ===== src/Paths/Memo.antt =====
-- `PathAnalysis::run` of `reve/reve/lib/PathAnalysis.cpp`, which searches once and keeps the paths.
use llreve.Prelude.{ℕ, ◌≡◌, refl, Bool, true, false, if◌then◌else◌, [], Result, ok, ◌>>=◌}
use llreve.Marks.{BidirBlockMarkMap}
use llreve.Paths.{Terminator}
use llreve.Paths.Find.{PathMap, find_paths}

-- The fields of the class.
pub record PathAnalysis (C I : Type 0) : Type 0 where
  pub path_map : PathMap C I
  pub infers : Bool
  pub first_run : Bool

unfoldable pub path_analysis : {C I : Type 0} → Bool → PathAnalysis C I
path_analysis infer = record { path_map = []; infers = infer; first_run = true }

module _ {C I : Type 0} (terminator : ℕ → Terminator C I) where
  -- `inferred` and `marked` are the results of the two analyses that the manager offers.
  unfoldable pub run_path_analysis :
      ℕ
      → Result BidirBlockMarkMap
      → Result BidirBlockMarkMap
      → PathAnalysis C I
      → Result (PathMap C I × PathAnalysis C I)
  unfolding find_paths
  run_path_analysis fuel inferred marked a = elim a.first_run [
    | false ↦ ok (a.path_map, a)
    | true ↦ (if a.infers then inferred else marked) >>= (λ marks.
        find_paths terminator marks fuel
        >>= (λ paths. ok (paths, record a { path_map = paths; first_run = false })))
  ]

  -- Every later run returns the same paths, whatever the other analyses say by then.
  pub run_path_analysis-again :
      (fuel : ℕ) (inferred marked : Result BidirBlockMarkMap) (a : PathAnalysis C I)
      → a.first_run ≡ false
      → run_path_analysis fuel inferred marked a ≡ ok (a.path_map, a)
  unfolding run_path_analysis
  run_path_analysis-again fuel inferred marked a h = rw (h) refl
