-- ===== src/Status.antt =====
-- mod_dev_tool/common/inc/StatusCodesDef.h and the std::errc values that the modelled code returns.
-- A MaybeVoid is a status, a Maybe a value or a status.
use ho_i4_mod_development_to.Base.{ℕ}

pub data Status : Type 0 where
  success badalloc not_implemented param_cannot_be_null value_not_found : Status
  uninitialized validation_failed invalid_type key_exists key_not_found : Status
  project_validation_failed no_project_loaded no_data_loaded dimension_mismatch : Status
  callback_not_registered province_invalid_state_id province_not_in_state : Status
  state_does_not_exist dispatcher_does_not_exist item_add_failure : Status
  item_bitmap_read_failure no_such_item_type expected_paths unexpected_response : Status
  shapefinder_estop cannot_read_from_stream read_too_few_bytes invalid_level_string : Status
  bitmap_offset_validation_error invalid_bits_per_pixel color_table_required : Status
  invalid_bit_depth unexpected recursion_too_deep : Status
  -- The `std::error_code`s that are no codes of the tool.
  no_such_file_or_directory : Status
  system_error : ℕ → Status

pub data Maybe {ℓ} (A : Type ℓ) : Type ℓ where
  ok : A → Maybe A
  error : Status → Maybe A
