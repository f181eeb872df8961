-- ===== src/Console/Bounds.antt =====
-- Printing stays on the screen, and the cursor is where the text ends.
use mintos.Base.{ℕ, ◌≤◌, ◌<◌, ◌≡◌, refl, List, [], ◌∷◌, arith, ◌∙◌}
use mintos.Console.{
  Character, Console, scroll, write_character, place_character, scroll_at_end, print_characters,
  print, console_print_string,
}

-- One character from an offset on the screen: the next offset is on the screen, and no cell behind
-- the screen has changed.
step-bound :
    (a o : ℕ) (s : ℕ → Character)
    → o < 2000
    → let r = scroll_at_end (place_character a (o, s)) in
      (r.0 < 2000) × ((i : ℕ) → 2000 ≤ i → r.1 i ≡ s i)
unfolding scroll_at_end place_character scroll write_character
step-bound a o s h = (ground arith, λ i le. ground arith)

print_characters-bound :
    (cs : List ℕ) (o : ℕ) (s : ℕ → Character)
    → o < 2000
    → let r = print_characters cs (o, s) in (r.0 < 2000) × ((i : ℕ) → 2000 ≤ i → r.1 i ≡ s i)
unfolding print_characters
print_characters-bound [] o s h = (h, λ i le. refl)
print_characters-bound (a ∷ cs) o s h =
    let p = scroll_at_end (place_character a (o, s)) in
    let one = step-bound a o s h in
    let rest = print_characters-bound cs p.0 p.1 one.0 in (rest.0, λ i le. rest.1 i le ∙ one.1 i le)

-- kPrintf with the cursor on the screen leaves the cursor on the screen, at the offset that
-- kConsolePrintString returns, and writes no memory behind the screen.
pub print-bound :
    (c : Console) (cs : List ℕ)
    → c.current_print_offset < 2000
    → let c' = print c cs in
      (c'.current_print_offset < 2000)
      × (c'.current_print_offset ≡ (console_print_string c cs).0)
      × ((i : ℕ) → 2000 ≤ i → c'.screen i ≡ c.screen i)
print-bound c cs h =
    let r = print_characters-bound cs c.current_print_offset c.screen h in
    (omega (arith, r.0), omega arith, r.1)
