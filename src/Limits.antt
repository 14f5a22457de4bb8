-- ===== src/Limits.antt =====
-- preconfs-client/src/filter.rs: the server's limits and `FilterError`.
use preconfs_client.Prelude.{ℕ, Text, Option, none, some}

abbrev pub max_filters : ℕ
max_filters = 64

abbrev pub max_accounts_per_list : ℕ
max_accounts_per_list = 10000

abbrev pub max_signatures_per_filter : ℕ
max_signatures_per_filter = 1000

abbrev pub max_filter_name_bytes : ℕ
max_filter_name_bytes = 64

abbrev pub max_instruction_filters : ℕ
max_instruction_filters = 32

abbrev pub max_memcmps_per_instruction : ℕ
max_memcmps_per_instruction = 4

abbrev pub max_memcmp_bytes : ℕ
max_memcmp_bytes = 128

abbrev pub max_instruction_data_bytes : ℕ
max_instruction_data_bytes = 4096

pub data FilterError : Type 0 where
  no_filters too_many_filters too_many_instruction_filters : FilterError
  name_too_long too_many_accounts too_many_signatures too_many_memcmps : Text → FilterError
  memcmp_length memcmp_out_of_range data_size_too_large empty : Text → FilterError

-- The filter that an error names.
abbrev pub blamed : FilterError → Option Text
blamed no_filters = none
blamed too_many_filters = none
blamed too_many_instruction_filters = none
blamed (name_too_long n) = some n
blamed (too_many_accounts n) = some n
blamed (too_many_signatures n) = some n
blamed (too_many_memcmps n) = some n
blamed (memcmp_length n) = some n
blamed (memcmp_out_of_range n) = some n
blamed (data_size_too_large n) = some n
blamed (empty n) = some n
