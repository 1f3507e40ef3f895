-- ===== src/Ntfs/Error.antt =====
-- The errors that the NTFS lane reports, one constructor for each message of the source.
pub data Error : Type 0 where
  attribute_offset attribute_length bad_attribute_length : Error
  short_data bad_runlist_offset data_not_found : Error
  bad_run sparse_run lcn_overflow negative_lcn length_overflow : Error
  physical_overflow logical_overflow run_end_overflow past_device : Error
  usa_offset usa_count bad_usa usa_mismatch : Error
  not_ntfs bad_geometry cluster_overflow record_shift record_overflow : Error
  bad_record_size mft_overflow unknown_extent : Error
  io_error mft_hole run_exhausted allocation_flags : Error
