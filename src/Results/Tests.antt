-- ===== src/Results/Tests.antt =====
-- The results about the entries at two dictionaries.
use valiant.Prelude.Floats.{whole}
use valiant.Results.{Result, create}
use valiant.Results.Laws.{IsValid, create-IsValid}

abbrev two : Result whole
two = create whole 2

two-IsValid : IsValid whole two
two-IsValid = create-IsValid whole 2
