-- ===== src/Prelude/Texts.antt =====
-- Numbers as texts.
use Prim.Native.Nat.{ℕ, zero, suc, ◌/◌, ◌%◌}
use Prim.Native.String.{String, ◌++◌}
use mathlib.Core.List.{List, [], ◌∷◌}
use teamem_server.Prelude.Tests.{ltb, if◌then◌else◌}

abbrev nth : ℕ → List String → String
nth n [] = ""
nth zero (d ∷ ds) = d
nth (suc n) (d ∷ ds) = nth n ds

abbrev pub digit : ℕ → String
digit d = nth d ("0" ∷ "1" ∷ "2" ∷ "3" ∷ "4" ∷ "5" ∷ "6" ∷ "7" ∷ "8" ∷ "9" ∷ [])

-- The last digits of a number, at most as many as the fuel.
unfoldable pub digits : ℕ → ℕ → String
digits zero n = ""
digits (suc fuel) n =
    let before = digits fuel (n / 10) in if ltb n 10 then digit n else before ++ digit (n % 10)

-- `${n}`: a number has at most as many digits as its successor counts.
unfoldable pub decimal : ℕ → String
unfolding digits
decimal n = digits (suc n) n
