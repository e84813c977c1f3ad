-- ===== src/Adapter/Code.antt =====
-- The status codes of gRPC that internal/adapter names, by their numbers.
use seckill.Prelude.{ℕ}

abbrev pub canceled : ℕ
canceled = 1

abbrev pub unknown : ℕ
unknown = 2

abbrev pub invalid_argument : ℕ
invalid_argument = 3

abbrev pub deadline : ℕ
deadline = 4

abbrev pub not_found : ℕ
not_found = 5

abbrev pub failed_precondition : ℕ
failed_precondition = 9

abbrev pub internal : ℕ
internal = 13

abbrev pub unavailable : ℕ
unavailable = 14
