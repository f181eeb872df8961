-- ===== src/Shell/Tests.antt =====
-- The second word of "ab cd" at address 1,000.
use mintos.Base.{◌≡◌, ◌==◌, if◌then◌else◌, refl, inr, some, arith}
use mintos.Memory.{Bytes}
use mintos.Memory.Words.{IsBytes}
use mintos.Shell.{ParameterList, str_len_from, initialize_parameter, find_space, get_next_parameter}
use mintos.Shell.Words.{IsNextWord, get_next_parameter-IsNextWord}

abbrev text : Bytes
text x =
    if x == 1000
    then b'a'
    else if x == 1001
    then b'b'
    else if x == 1002
    then b' '
    else if x == 1003
    then b'c'
    else if x == 1004
    then b'd'
    else 0

text-IsBytes : IsBytes text
text-IsBytes x = ground arith

abbrev second : ParameterList
second = record { buffer = 1000; length = 5; current_position = 3 }

get_next_parameter-IsNextWord_example :
    IsNextWord text second 2000 (get_next_parameter text second 2000)
get_next_parameter-IsNextWord_example =
    get_next_parameter-IsNextWord text text-IsBytes second 2000 (omega arith) (inr (omega arith))

length_run :
    initialize_parameter 10 text 1000
    ≡ some (record { buffer = 1000; length = 5; current_position = 0 })
unfolding initialize_parameter str_len_from
length_run = refl

second_run : (get_next_parameter text second 2000).0 ≡ 2
unfolding get_next_parameter find_space
second_run = refl
