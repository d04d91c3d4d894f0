-- ===== src/Tests/Infos.antt =====
-- The info files at concrete inputs.
use mem_perf_pro.Base.{◌≡◌, refl, ◌∷◌, [], arith}
use mem_perf_pro.Base.Run.{done, abort, Returns}
use mem_perf_pro.InfoFile.{
  middle_key, large_key, atoi, strtol, digits_from, read_input_info_file, read_input_line, strtok,
  token_of, same_string, read_middle_object_threshold_from_info, next_value,
  read_predictor_info_file,
}
use mem_perf_pro.InfoFile.Decimal.{print, digits}
use mem_perf_pro.InfoFile.Printed.{
  line_of, predictor_file, Replaced, read_predictor_info_file-Replaced, read_input_info_file_lem,
}
use mem_perf_pro.Tests.EntryPoints.{info}

-- " -17x"
negative : atoi (32 ∷ 45 ∷ 49 ∷ 55 ∷ 120 ∷ []) ≡ 0xffff_ffef
unfolding atoi strtol digits_from
negative = refl

printed : print 4096 (10 ∷ []) ≡ 52 ∷ 48 ∷ 57 ∷ 54 ∷ 10 ∷ []
unfolding digits
printed = refl

-- A line that ends behind its key ends the process.
no_value : read_input_line middle_key info ≡ abort
unfolding read_input_line strtok token_of same_string read_middle_object_threshold_from_info
    next_value
no_value = refl

read_predictor_info_file-Replaced_example :
    Returns
      (λ info'. Replaced info info' 1024 65537 (λ i. 90))
      (read_predictor_info_file (predictor_file 1024 65537 (λ i. 90)) info)
read_predictor_info_file-Replaced_example =
    read_predictor_info_file-Replaced info 1024 65537 (λ i. 90) (omega arith) (omega arith)
      (λ i. omega arith)

read_input_info_file_lem_example :
    read_input_info_file
      (line_of middle_key (print 1024 (10 ∷ [])) ∷ line_of large_key (print 65537 (10 ∷ [])) ∷ [])
      info
    ≡ done (record info { middle_object_threshold = 1024; large_object_threshold = 65537 })
read_input_info_file_lem_example =
    read_input_info_file_lem info 1024 65537 (omega arith) (omega arith)
