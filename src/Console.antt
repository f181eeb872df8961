-- ===== src/Console.antt =====
-- 02.Kernel64/Console.c: the text screen and its cursor.
-- The video memory from CONSOLE_VIDEOMEMORYADDRESS on is a function from the index of a CHARACTER; a
-- string is the list of its characters before the NUL. The cursor registers of the VGA are left out.
pub mod Bounds
mod Tests
use mintos.Base.{
  ℕ, ◌+◌, ◌-◌, ◌*◌, ◌/◌, ◌%◌, Bool, Option, none, some, List, [], ◌∷◌, ◌&&◌, ◌==◌, leb, ltb,
  if◌then◌else◌,
}
use mintos.Keyboard.{KeyData}

abbrev pub console_width : ℕ
console_width = 80

abbrev pub console_height : ℕ
console_height = 25

-- CONSOLE_DEFAULTTEXTCOLOR
abbrev pub console_default_text_color : ℕ
console_default_text_color = 0x0b

-- CHARACTER
pub record Character : Type 0 where
  pub character : ℕ
  pub attribute : ℕ

-- CONSOLEMANAGER, with the video memory.
pub record Console : Type 0 where
  pub current_print_offset : ℕ
  pub screen : ℕ → Character

-- kSetCursor
abbrev pub set_cursor : Console → (x y : ℕ) → Console
set_cursor c x y = record c { current_print_offset = y * console_width + x }

-- kInitializeConsole
abbrev pub initialize_console : Console → (x y : ℕ) → Console
initialize_console c x y = set_cursor (record c { current_print_offset = 0 }) x y

-- kGetCursor: column and row.
abbrev pub get_cursor : Console → ℕ × ℕ
get_cursor c = (c.current_print_offset % console_width, c.current_print_offset / console_width)

-- A character in the default colour.
abbrev pub text : ℕ → Character
text a = record { character = a; attribute = console_default_text_color }

-- The screen one row up, and the last row blank. The two areas of the kMemCpy overlap, but it copies
-- from low to high addresses and reads ahead of what it writes.
unfoldable pub scroll : (ℕ → Character) → ℕ → Character
scroll s i =
    if ltb i ((console_height - 1) * console_width)
    then s (i + console_width)
    else if ltb i (console_height * console_width)
    then text b' '
    else s i

-- The screen after the characters at `i` is written.
unfoldable pub write_character : (ℕ → Character) → ℕ → ℕ → ℕ → Character
write_character s i a j = if j == i then text a else s j

-- A turn of the loop of kConsolePrintString up to the scrolling: the offset and the screen.
unfoldable pub place_character : ℕ → ℕ × (ℕ → Character) → ℕ × (ℕ → Character)
place_character a (o, s) =
    if a == 10
    then (o + (console_width - o % console_width), s)
    else if a == 9
    then (o + (4 - o % 4), s)
    else (o + 1, write_character s o a)

-- The rest of the turn.
unfoldable pub scroll_at_end : ℕ × (ℕ → Character) → ℕ × (ℕ → Character)
scroll_at_end (o, s) =
    if leb (console_height * console_width) o
    then ((console_height - 1) * console_width, scroll s)
    else (o, s)

-- The loop of kConsolePrintString.
unfoldable pub print_characters : List ℕ → ℕ × (ℕ → Character) → ℕ × (ℕ → Character)
print_characters [] p = p
print_characters (a ∷ cs) p = print_characters cs (scroll_at_end (place_character a p))

-- kConsolePrintString: the next offset, which it returns, and the screen.
abbrev pub console_print_string : Console → List ℕ → ℕ × (ℕ → Character)
console_print_string c cs = print_characters cs (c.current_print_offset, c.screen)

-- kPrintf, from the string that kVSPrintf has made.
abbrev pub print : Console → List ℕ → Console
print c cs =
    let r = console_print_string c cs in
    set_cursor (record c { screen = r.1 }) (r.0 % console_width) (r.0 / console_width)

-- kClearScreen
abbrev pub clear_screen : Console → Console
clear_screen c =
    set_cursor
      (record c {
        screen = λ i. if ltb i (console_height * console_width) then text b' ' else c.screen i;
      })
      0 0

-- kPrintStringXY, from cell `i` on.
unfoldable pub print_at : List ℕ → ℕ → (ℕ → Character) → ℕ → Character
print_at [] i s = s
print_at (a ∷ cs) i s = print_at cs (i + 1) (write_character s i a)

-- kPrintStringXY
abbrev pub print_string_xy : Console → (x y : ℕ) → List ℕ → Console
print_string_xy c x y cs = record c { screen = print_at cs (y * 80 + x) c.screen }

-- kGetCh on the keys that arrive, with what is left of them: `none` while none is pressed.
unfoldable pub get_ch : List KeyData → Option (ℕ × List KeyData)
get_ch [] = none
get_ch (k ∷ ks) =
    let later = get_ch ks in if k.flags % 2 == 1 then some (k.ascii_code, ks) else later
