-- ===== src/InfoFile/Printed.antt =====
-- Info files that are written in decimal are read back.
use mem_perf_pro.Base.{
  ℕ, ◌%◌, ◌<◌, ◌≡◌, refl, ap, ◌∙◌, ◌&&◌, leb, ltb, if◌then◌else◌, some, List, [], ◌∷◌, ◌++◌, arith,
}
use mem_perf_pro.Base.Run.{Run, done, ◌>>=◌, Returns}
use mem_perf_pro.AllocatingStatus.Calls.{Info}
use mem_perf_pro.InfoFile.{
  token_of, strtok, middle_key, large_key, cycles_key, to_unsigned_short, read_input_info_file,
  read_predictor_info_file, read_input_line, read_predictor_line, same_string,
  read_middle_object_threshold_from_info, read_large_object_threshold_from_info,
  read_replaced_middle_from_info, read_replaced_large_from_info, read_function_cycles_from_info,
}
use mem_perf_pro.InfoFile.Decimal.{print}
use mem_perf_pro.InfoFile.Cycles.{print_cycles, last_value, read_cycles-print}

abbrev pub line_of : List ℕ → List ℕ → List ℕ
line_of key values = key ++ 32 ∷ values

-- What the first token of a printed line and the rest of it are.
middle_token : (values : List ℕ) → strtok (line_of middle_key values) ≡ some (middle_key, values)
unfolding strtok token_of
middle_token values = refl

large_token : (values : List ℕ) → strtok (line_of large_key values) ≡ some (large_key, values)
unfolding strtok token_of
large_token values = refl

cycles_token : (values : List ℕ) → strtok (line_of cycles_key values) ≡ some (cycles_key, values)
unfolding strtok token_of
cycles_token values = refl

read_predictor_line_lem :
    (line token rest : List ℕ) (info : Info)
    → strtok line ≡ some (token, rest)
    → read_predictor_line line info ≡ (do
      info' ← read_function_cycles_from_info token rest info
      info'' ← read_replaced_middle_from_info token rest info'
      read_replaced_large_from_info token rest info'')
unfolding read_predictor_line
read_predictor_line_lem line token rest info e = rw (e, read_predictor_line) refl

predictor_middle :
    (n : ℕ) (info : Info)
    → n < 0x8000_0000
    → read_predictor_line (line_of middle_key (print n (10 ∷ []))) info
      ≡ done (record info { replaced_middle = to_unsigned_short n })
unfolding read_function_cycles_from_info read_replaced_middle_from_info
    read_replaced_large_from_info same_string
predictor_middle n info small =
    read_predictor_line_lem _ _ _ info (middle_token (print n (10 ∷ [])))
    ∙ ap
        (λ (r : Run (ℕ × List ℕ)). do
          with_middle ← (do
            (value, behind) ← r
            done (record info { replaced_middle = to_unsigned_short value }))
          read_replaced_large_from_info middle_key (print n (10 ∷ [])) with_middle)
        (last_value n small)

predictor_large :
    (n : ℕ) (info : Info)
    → n < 0x8000_0000
    → read_predictor_line (line_of large_key (print n (10 ∷ []))) info
      ≡ done (record info { replaced_large = n })
unfolding read_function_cycles_from_info read_replaced_middle_from_info
    read_replaced_large_from_info same_string
predictor_large n info small =
    read_predictor_line_lem _ _ _ info (large_token (print n (10 ∷ [])))
    ∙ ap
        (λ (r : Run (ℕ × List ℕ)). do
          (value, behind) ← r
          done (record info { replaced_large = value }))
        (last_value n small)

-- the line of the cycles of the 24 types
abbrev pub cycles_line : (ℕ → ℕ) → List ℕ
cycles_line cycles = line_of cycles_key (print_cycles 23 0 cycles)

from_first_type : (i x y : ℕ) → (if leb 0 i && ltb i 24 then x else y) ≡ (if ltb i 24 then x else y)
from_first_type i x y = ground arith

predictor_cycles :
    (cycles : ℕ → ℕ) (info : Info)
    → ((i : ℕ) → cycles i < 0x8000_0000)
    → Returns
        (λ info'.
          (after : ℕ → ℕ) × (info' ≡ record info { replaced_function_cycles = after })
          × ((i : ℕ) → after i ≡ (if ltb i 24 then cycles i else info.replaced_function_cycles i)))
        (read_predictor_line (cycles_line cycles) info)
unfolding read_function_cycles_from_info read_replaced_middle_from_info
    read_replaced_large_from_info same_string
predictor_cycles cycles info small =
    let before = info.replaced_function_cycles in
    let (after, is, values) = read_cycles-print 23 0 cycles before small in
    let info' : Info = record info { replaced_function_cycles = after } in
    (
      info',
      read_predictor_line_lem _ _ _ info (cycles_token (print_cycles 23 0 cycles))
          ∙ ap
              (λ (r : Run (ℕ → ℕ)). do
                with_cycles ← (do
                  cells ← r
                  done (record info { replaced_function_cycles = cells }))
                with_middle ←
                    read_replaced_middle_from_info cycles_key (print_cycles 23 0 cycles) with_cycles
                read_replaced_large_from_info cycles_key (print_cycles 23 0 cycles) with_middle)
              is,
      (after, refl, λ i. values i ∙ from_first_type i (cycles i) (before i)),
    )

-- what the file of a prediction leaves in the sizes and cycles
pub record Replaced (info info' : Info) (middle large : ℕ) (cycles : ℕ → ℕ) : Type 0 where
  pub replaced_middle : info'.replaced_middle ≡ middle % 0x1_0000
  pub replaced_large : info'.replaced_large ≡ large
  pub replaced_cycles :
      (i : ℕ)
      → info'.replaced_function_cycles i
        ≡ (if ltb i 24 then cycles i else info.replaced_function_cycles i)
  pub others_middle : info'.middle_object_threshold ≡ info.middle_object_threshold
  pub others_large : info'.large_object_threshold ≡ info.large_object_threshold

abbrev pub predictor_file : ℕ → ℕ → (ℕ → ℕ) → List (List ℕ)
predictor_file middle large cycles =
    cycles_line cycles
    ∷ line_of middle_key (print middle (10 ∷ []))
    ∷ line_of large_key (print large (10 ∷ []))
    ∷ []

-- Numbers below 2 ^ 31 that are written in decimal to the info file of the predictor are read back:
-- the threshold of medium objects by its low 16 bits, that of large objects, and the cycles of the 24
-- types. What the other file gives stays.
pub read_predictor_info_file-Replaced :
    (info : Info) (middle large : ℕ) (cycles : ℕ → ℕ)
    → middle < 0x8000_0000
    → large < 0x8000_0000
    → ((i : ℕ) → cycles i < 0x8000_0000)
    → Returns
        (λ info'. Replaced info info' middle large cycles)
        (read_predictor_info_file (predictor_file middle large cycles) info)
unfolding read_predictor_info_file
read_predictor_info_file-Replaced info middle large cycles small_middle small_large small =
    let (with_cycles, first, is_read) = predictor_cycles cycles info small in
    let (after, is, values) = is_read in
    let with_middle : Info = record with_cycles { replaced_middle = to_unsigned_short middle } in
    let last : Info = record with_middle { replaced_large = large } in
    let middle_line = line_of middle_key (print middle (10 ∷ [])) in
    let large_line = line_of large_key (print large (10 ∷ [])) in
    (
      last,
      ap (λ (r : Run Info). do i ← r; read_predictor_info_file (middle_line ∷ large_line ∷ []) i)
            first
          ∙ (ap (λ (r : Run Info). do i ← r; read_predictor_info_file (large_line ∷ []) i)
                (predictor_middle middle with_cycles small_middle)
              ∙ ap (λ (r : Run Info). do i ← r; done i)
                  (predictor_large large with_middle small_large)),
      record {
        replaced_middle = refl;
        replaced_large = refl;
        replaced_cycles = λ i. ap (λ (x : Info). x.replaced_function_cycles i) is ∙ values i;
        others_middle = ap (λ (x : Info). x.middle_object_threshold) is;
        others_large = ap (λ (x : Info). x.large_object_threshold) is;
      },
    )

-- the same of the other file
input_line_lem :
    (line token rest : List ℕ) (info : Info)
    → strtok line ≡ some (token, rest)
    → read_input_line line info ≡ (do
      info' ← read_middle_object_threshold_from_info token rest info
      read_large_object_threshold_from_info token rest info')
unfolding read_input_line
input_line_lem line token rest info e = rw (e, read_input_line) refl

input_middle :
    (n : ℕ) (info : Info)
    → n < 0x8000_0000
    → read_input_line (line_of middle_key (print n (10 ∷ []))) info
      ≡ done (record info { middle_object_threshold = to_unsigned_short n })
unfolding read_middle_object_threshold_from_info read_large_object_threshold_from_info same_string
input_middle n info small =
    input_line_lem _ _ _ info (middle_token (print n (10 ∷ [])))
    ∙ ap
        (λ (r : Run (ℕ × List ℕ)). do
          with_middle ← (do
            (value, behind) ← r
            done (record info { middle_object_threshold = to_unsigned_short value }))
          read_large_object_threshold_from_info middle_key (print n (10 ∷ [])) with_middle)
        (last_value n small)

input_large :
    (n : ℕ) (info : Info)
    → n < 0x8000_0000
    → read_input_line (line_of large_key (print n (10 ∷ []))) info
      ≡ done (record info { large_object_threshold = n })
unfolding read_middle_object_threshold_from_info read_large_object_threshold_from_info same_string
input_large n info small =
    input_line_lem _ _ _ info (large_token (print n (10 ∷ [])))
    ∙ ap
        (λ (r : Run (ℕ × List ℕ)). do
          (value, behind) ← r
          done (record info { large_object_threshold = value }))
        (last_value n small)

-- Two thresholds below 2 ^ 31 that are written in decimal to the info file of the running allocator
-- are read back, that of medium objects by its low 16 bits, and nothing else changes.
pub read_input_info_file_lem :
    (info : Info) (middle large : ℕ)
    → middle < 0x8000_0000
    → large < 0x8000_0000
    → read_input_info_file
        (line_of middle_key (print middle (10 ∷ []))
          ∷ line_of large_key (print large (10 ∷ []))
          ∷ [])
        info
      ≡ done (record info {
        middle_object_threshold = to_unsigned_short middle;
        large_object_threshold = large;
      })
unfolding read_input_info_file
read_input_info_file_lem info middle large small_middle small_large =
    let with_middle : Info = record info { middle_object_threshold = to_unsigned_short middle } in
    ap
      (λ (r : Run Info). do
        i ← r
        read_input_info_file (line_of large_key (print large (10 ∷ [])) ∷ []) i)
      (input_middle middle info small_middle)
    ∙ ap (λ (r : Run Info). do i ← r; done i) (input_large large with_middle small_large)
