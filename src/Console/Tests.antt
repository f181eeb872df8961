-- ===== src/Console/Tests.antt =====
-- The theorems on the console at a screen whose last row is written to its end.
use mintos.Base.{ℕ, ◌≡◌, ◌≤◌, ◌<◌, [], ◌∷◌, arith}
use mintos.Console.{Console, print, console_print_string, text}
use mintos.Console.Bounds.{print-bound}

abbrev at_end : Console
at_end = record { current_print_offset = 1999; screen = λ i. text i }

print-bound_example :
    let c' = print at_end (65 ∷ 10 ∷ 66 ∷ []) in
    (c'.current_print_offset < 2000)
    × (c'.current_print_offset ≡ (console_print_string at_end (65 ∷ 10 ∷ 66 ∷ [])).0)
    × ((i : ℕ) → 2000 ≤ i → c'.screen i ≡ text i)
print-bound_example = print-bound at_end (65 ∷ 10 ∷ 66 ∷ []) (ground arith)
