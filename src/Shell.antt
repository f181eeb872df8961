-- ===== src/Shell.antt =====
-- 02.Kernel64/ConsoleShell.c: the parser of parameters. Strings are in memory, with a zero at the end.
mod Tests
pub mod Words
use mintos.Base.{ℕ, zero, suc, ◌+◌, ◌-◌, Option, none, some, ◌==◌, leb, if◌then◌else◌}
use mintos.Memory.{Bytes, store_byte, mem_cpy}

-- PARAMETERLIST
pub record ParameterList : Type 0 where
  pub buffer : ℕ
  pub length : ℕ
  pub current_position : ℕ

-- The loop of kStrLen, as a call in this file sees it.
unfoldable pub str_len_from : (fuel : ℕ) → Bytes → (pointer i : ℕ) → Option ℕ
str_len_from zero m p i = none
str_len_from (suc fuel) m p i =
    let rest = str_len_from fuel m p (i + 1) in if m (p + i) == 0 then some i else rest

-- kInitializeParameter
unfoldable pub initialize_parameter : (fuel : ℕ) → Bytes → (parameter : ℕ) → Option ParameterList
initialize_parameter fuel m p = elim (str_len_from fuel m p 0) [
  | none ↦ none
  | some n ↦ some (record { buffer = p; length = n; current_position = 0 })
]

-- The index of the next space from `i` on, or of the end of the string, which is `left` bytes ahead.
unfoldable pub find_space : (left i : ℕ) → Bytes → (pointer : ℕ) → ℕ
find_space zero i m p = i
find_space (suc left) i m p =
    let rest = find_space left (i + 1) m p in if m (p + i) == b' ' then i else rest

-- kGetNextParameter, which copies as many bytes as the index of the end of the word.
unfoldable pub get_next_parameter :
    Bytes → ParameterList → (parameter : ℕ) → ℕ × Bytes × ParameterList
get_next_parameter m l parameter =
    let i = find_space (l.length - l.current_position) l.current_position m l.buffer in
    let n = i - l.current_position in
    let m1 = mem_cpy m parameter (l.buffer + l.current_position) i in
    if leb l.length l.current_position then (0, m, l) else (
      n,
      store_byte m1 (parameter + n) 0,
      record l { current_position = l.current_position + n + 1 },
    )
