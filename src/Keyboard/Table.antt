-- ===== src/Keyboard/Table.antt =====
-- 02.Kernel64/Keyboard.c: gs_vstKeyMappingTable, the normal and the combined code of each key.
use mintos.Base.{ℕ, List, [], ◌∷◌}

abbrev pub key_mapping_table : List (ℕ × ℕ)
key_mapping_table =
    (0x0, 0x0)
    ∷ (0x1b, 0x1b)
    ∷ (b'1', 0x21)
    ∷ (b'2', 0x40)
    ∷ (b'3', 0x23)
    ∷ (b'4', 0x24)
    ∷ (b'5', 0x25)
    ∷ (b'6', 0x5e)
    ∷ (b'7', 0x26)
    ∷ (b'8', 0x2a)
    ∷ (b'9', 0x28)
    ∷ (b'0', 0x29)
    ∷ (0x2d, 0x5f)
    ∷ (0x3d, 0x2b)
    ∷ (0x8, 0x8)
    ∷ (0x9, 0x9)
    ∷ (b'q', b'Q')
    ∷ (b'w', b'W')
    ∷ (b'e', b'E')
    ∷ (b'r', b'R')
    ∷ (b't', b'T')
    ∷ (b'y', b'Y')
    ∷ (b'u', b'U')
    ∷ (b'i', b'I')
    ∷ (b'o', b'O')
    ∷ (b'p', b'P')
    ∷ (0x5b, 0x7b)
    ∷ (0x5d, 0x7d)
    ∷ (0x0a, 0x0a)
    ∷ (0x81, 0x81)
    ∷ (b'a', b'A')
    ∷ (b's', b'S')
    ∷ (b'd', b'D')
    ∷ (b'f', b'F')
    ∷ (b'g', b'G')
    ∷ (b'h', b'H')
    ∷ (b'j', b'J')
    ∷ (b'k', b'K')
    ∷ (b'l', b'L')
    ∷ (0x3b, 0x3a)
    ∷ (0x27, 0x22)
    ∷ (0x60, 0x7e)
    ∷ (0x82, 0x82)
    ∷ (0x5c, 0x7c)
    ∷ (b'z', b'Z')
    ∷ (b'x', b'X')
    ∷ (b'c', b'C')
    ∷ (b'v', b'V')
    ∷ (b'b', b'B')
    ∷ (b'n', b'N')
    ∷ (b'm', b'M')
    ∷ (0x2c, 0x3c)
    ∷ (0x2e, 0x3e)
    ∷ (0x2f, 0x3f)
    ∷ (0x83, 0x83)
    ∷ (0x2a, 0x2a)
    ∷ (0x85, 0x85)
    ∷ (0x20, 0x20)
    ∷ (0x86, 0x86)
    ∷ (0x87, 0x87)
    ∷ (0x88, 0x88)
    ∷ (0x89, 0x89)
    ∷ (0x8a, 0x8a)
    ∷ (0x8b, 0x8b)
    ∷ (0x8c, 0x8c)
    ∷ (0x8d, 0x8d)
    ∷ (0x8e, 0x8e)
    ∷ (0x8f, 0x8f)
    ∷ (0x90, 0x90)
    ∷ (0x91, 0x91)
    ∷ (0x92, 0x92)
    ∷ (0x93, b'7')
    ∷ (0x94, b'8')
    ∷ (0x95, b'9')
    ∷ (0x2d, 0x2d)
    ∷ (0x96, b'4')
    ∷ (0x97, b'5')
    ∷ (0x98, b'6')
    ∷ (0x2b, 0x2b)
    ∷ (0x99, b'1')
    ∷ (0x9a, b'2')
    ∷ (0x9b, b'3')
    ∷ (0x9c, b'0')
    ∷ (0x9d, 0x2e)
    ∷ (0x0, 0x0)
    ∷ (0x0, 0x0)
    ∷ (0x0, 0x0)
    ∷ (0x9e, 0x9e)
    ∷ (0x9f, 0x9f)
    ∷ []
