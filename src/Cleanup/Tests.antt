-- ===== src/Cleanup/Tests.antt =====
-- A list of two functions, and one registered between them.
use libmcu.Base.{List, [], ◌∷◌}
use libmcu.Cleanup.{Cleanup}

abbrev entries : List Cleanup
entries =
    record { func = 64; func_ctx = 1; priority = 9 }
    ∷ record { func = 80; func_ctx = 2; priority = 3 }
    ∷ []
