-- ===== src/Context/Tests.antt =====
-- The results about positions at two dictionaries.
use valiant.Prelude.{◌<◌, true, List, [], ◌∷◌, Bytes, codes, length, All}
use valiant.Worker.Round.{Always, InRange}
use valiant.Context.{StageSection, stage_create}
use valiant.Context.Ranges.{stage_create-InRange}

abbrev names : List Bytes
names = codes "spf" ∷ codes "helo" ∷ []

abbrev section : StageSection
section = record {
  check_sections = record { dict_name = codes "helo"; depends_names = codes "spf" ∷ [] } ∷ [];
  is_stage = true;
  stage_names = [];
}

stage_create-InRange_example :
    Always
      (λ stage. InRange (length names) stage × All (λ d. d < length names) stage.stage_depends)
      (stage_create names section)
stage_create-InRange_example = stage_create-InRange names section
