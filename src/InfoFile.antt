-- ===== src/InfoFile.antt =====
-- src_light/programstatus.cpp, predictor.cpp: the two info files, of the running allocator and of
-- the one of the prediction. A line is a list of bytes with its newline, as getline gives it; a file is
-- the list of its lines. strtok, strcmp and atoi are those of the C library.
pub mod Decimal
pub mod Cycles
pub mod Printed
use mem_perf_pro.Base.{
  ℕ, zero, suc, ◌+◌, ◌-◌, ◌*◌, ◌%◌, Bool, true, false, ◌&&◌, ◌||◌, leb, ltb, ◌==◌, min,
  if◌then◌else◌, Option, none, some, List, [], ◌∷◌, update,
}
use mem_perf_pro.Base.Run.{Run, done, abort, ◌>>=◌}
use mem_perf_pro.Structs.{num_of_allocation_types}
use mem_perf_pro.AllocatingStatus.Calls.{Info}

-- the bytes up to the next space, and those behind it
unfoldable pub token_of : List ℕ → List ℕ × List ℕ
token_of [] = ([], [])
token_of (c ∷ cs) =
    let (token, rest) = token_of cs in if c == 32 then ([], cs) else (c ∷ token, rest)

-- strtok(s, " "): the token and what is left, or NULL
unfoldable pub strtok : List ℕ → Option (List ℕ × List ℕ)
unfolding token_of
strtok [] = none
strtok (c ∷ cs) = let later = strtok cs in if c == 32 then later else some (token_of (c ∷ cs))

-- strcmp(s, t) == 0
unfoldable pub same_string : List ℕ → List ℕ → Bool
same_string [] [] = true
same_string [] (d ∷ ds) = false
same_string (c ∷ cs) [] = false
same_string (c ∷ cs) (d ∷ ds) = c == d && same_string cs ds

abbrev pub is_digit : ℕ → Bool
is_digit c = leb 48 c && leb c 57

-- isspace
abbrev pub is_space : ℕ → Bool
is_space c = c == 32 || (leb 9 c && leb c 13)

-- the number that the digits add to `value`
unfoldable pub digits_from : ℕ → List ℕ → ℕ
digits_from value [] = value
digits_from value (c ∷ cs) =
    let more = digits_from (value * 10 + (c - 48)) cs in if is_digit c then more else value

-- strtol in base 10, as a bit pattern: a number that is too large gives the largest one
unfoldable pub strtol : List ℕ → ℕ
unfolding digits_from
strtol [] = 0
strtol (c ∷ cs) =
    let later = strtol cs in
    if is_space c
    then later
    else if c == 45
    then (0x1_0000_0000_0000_0000 - min (digits_from 0 cs) 0x8000_0000_0000_0000)
      % 0x1_0000_0000_0000_0000
    else if c == 43
    then min (digits_from 0 cs) 0x7fff_ffff_ffff_ffff
    else min (digits_from 0 (c ∷ cs)) 0x7fff_ffff_ffff_ffff

-- the conversion to `int`
unfoldable pub atoi : List ℕ → ℕ
unfolding strtol
atoi s = strtol s % 0x1_0000_0000

-- `(unsigned short)` and `(size_t)` of an int; `(unsigned int)` keeps the bit pattern
abbrev pub to_unsigned_short : ℕ → ℕ
to_unsigned_short i = i % 0x1_0000

abbrev pub to_size_t : ℕ → ℕ
to_size_t i = if leb 0x8000_0000 i then i + 0xffff_ffff_0000_0000 else i

-- `token = strtok(NULL, " ")` and atoi(token): a value that is missing ends the process.
unfoldable pub next_value : List ℕ → Run (ℕ × List ℕ)
unfolding strtok atoi
next_value rest = elim (strtok rest) [
  | none ↦ abort
  | some (token, behind) ↦ done (atoi token, behind)
]

-- "middle_object_threshold"
abbrev pub middle_key : List ℕ
middle_key =
    109 ∷ 105 ∷ 100 ∷ 100 ∷ 108 ∷ 101 ∷ 95 ∷ 111 ∷ 98 ∷ 106 ∷ 101 ∷ 99 ∷ 116 ∷ 95 ∷ 116 ∷ 104 ∷ 114
    ∷ 101 ∷ 115 ∷ 104 ∷ 111 ∷ 108 ∷ 100 ∷ []

-- "large_object_threshold"
abbrev pub large_key : List ℕ
large_key =
    108 ∷ 97 ∷ 114 ∷ 103 ∷ 101 ∷ 95 ∷ 111 ∷ 98 ∷ 106 ∷ 101 ∷ 99 ∷ 116 ∷ 95 ∷ 116 ∷ 104 ∷ 114 ∷ 101
    ∷ 115 ∷ 104 ∷ 111 ∷ 108 ∷ 100 ∷ []

-- "function_cycles"
abbrev pub cycles_key : List ℕ
cycles_key =
    102 ∷ 117 ∷ 110 ∷ 99 ∷ 116 ∷ 105 ∷ 111 ∷ 110 ∷ 95 ∷ 99 ∷ 121 ∷ 99 ∷ 108 ∷ 101 ∷ 115 ∷ []

module _ (token rest : List ℕ) (info : Info) where
  unfoldable pub read_middle_object_threshold_from_info : Run Info
  unfolding same_string next_value
  read_middle_object_threshold_from_info =
      if same_string token middle_key
      then (do
        (value, behind) ← next_value rest
        done (record info { middle_object_threshold = to_unsigned_short value }))
      else done info

  unfoldable pub read_large_object_threshold_from_info : Run Info
  unfolding same_string next_value
  read_large_object_threshold_from_info =
      if same_string token large_key
      then (do
        (value, behind) ← next_value rest
        done (record info { large_object_threshold = value }))
      else done info

  -- the same of the predictor
  unfoldable pub read_replaced_middle_from_info : Run Info
  unfolding same_string next_value
  read_replaced_middle_from_info =
      if same_string token middle_key
      then (do
        (value, behind) ← next_value rest
        done (record info { replaced_middle = to_unsigned_short value }))
      else done info

  unfoldable pub read_replaced_large_from_info : Run Info
  unfolding same_string next_value
  read_replaced_large_from_info =
      if same_string token large_key
      then (do (value, behind) ← next_value rest; done (record info { replaced_large = value }))
      else done info

-- the loop of readFunctionCyclesFromInfo, with the rounds that are left
unfoldable pub read_cycles : ℕ → ℕ → List ℕ → (ℕ → ℕ) → Run (ℕ → ℕ)
unfolding next_value
read_cycles zero type rest cycles = done cycles
read_cycles (suc left) type rest cycles = do
  (value, behind) ← next_value rest
  read_cycles left (type + 1) behind (update cycles type (to_size_t value))

unfoldable pub read_function_cycles_from_info : List ℕ → List ℕ → Info → Run Info
unfolding same_string read_cycles
read_function_cycles_from_info token rest info =
    if same_string token cycles_key
    then (do
      cycles ← read_cycles num_of_allocation_types 0 rest info.replaced_function_cycles
      done (record info { replaced_function_cycles = cycles }))
    else done info

-- ProgramStatus::readInputInfoFile
unfoldable pub read_input_line : List ℕ → Info → Run Info
unfolding strtok read_middle_object_threshold_from_info read_large_object_threshold_from_info
read_input_line line info = elim (strtok line) [
  | none ↦ done info
  | some (token, rest) ↦ do
    info' ← read_middle_object_threshold_from_info token rest info
    read_large_object_threshold_from_info token rest info'
]

unfoldable pub read_input_info_file : List (List ℕ) → Info → Run Info
unfolding read_input_line
read_input_info_file [] info = done info
read_input_info_file (line ∷ lines) info = do
  info' ← read_input_line line info
  read_input_info_file lines info'

-- Predictor::readPredictorInfoFile
unfoldable pub read_predictor_line : List ℕ → Info → Run Info
unfolding strtok read_function_cycles_from_info read_replaced_middle_from_info
    read_replaced_large_from_info
read_predictor_line line info = elim (strtok line) [
  | none ↦ done info
  | some (token, rest) ↦ do
    info' ← read_function_cycles_from_info token rest info
    info'' ← read_replaced_middle_from_info token rest info'
    read_replaced_large_from_info token rest info''
]

unfoldable pub read_predictor_info_file : List (List ℕ) → Info → Run Info
unfolding read_predictor_line
read_predictor_info_file [] info = done info
read_predictor_info_file (line ∷ lines) info = do
  info' ← read_predictor_line line info
  read_predictor_info_file lines info'
