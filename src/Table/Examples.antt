-- ===== src/Table/Examples.antt =====
-- A commit to a table that has no segment yet.
use webanalyticsdb.Prelude.{ℕ, refl, true, false, [], ◌∷◌, none, replicate}
use webanalyticsdb.Prelude.Int.{pos}
use webanalyticsdb.Core.Status.{ok}
use webanalyticsdb.Core.Types.{timestamp_us}
use webanalyticsdb.Schema.{Schema}
use webanalyticsdb.Query.Values.{Value}
use webanalyticsdb.Table.{Table, Disk}
use webanalyticsdb.Table.Commit.{Request}
use webanalyticsdb.Table.Append.{CommitOptions, commit}
use webanalyticsdb.Table.Accounting.{IsAccounted, commit-IsAccounted}

abbrev times_only : Schema
times_only = record {
  row_width = 8;
  null_bytes = 0;
  fingerprint = 77;
  fields =
      record {
        name = [];
        type = timestamp_us;
        size = 0;
        nullable = false;
        offset = 0;
        width = 8;
        null_bit = 0;
      }
      ∷ [];
}

abbrev empty_table : Table
empty_table = record {
  id = 1;
  schema = times_only;
  next_segment_id = 1;
  manifest_generation = 1;
  retention_us = 0;
  segments = [];
  last_sequence = 0;
  last_time = pos 0;
  preserved_sequence = 0;
  preserved_time = pos 0;
  dictionary = none;
  index = [];
  index_capacity = 0;
  content = [];
  readable = [];
  readable_capacity = 0;
  read_only = false;
  pending_retention = false;
  maintenance_status = ok tt;
  retained_rows = 0;
  retained_bytes = 0;
  retained_segments = 0;
  retired_segments = 0;
  published_dictionary_bytes = 0;
  committed_frames = 0;
  append_requests = 0;
}

abbrev good_disk : Disk
good_disk = record {
  index_saved = ok tt;
  items_memory = true;
  partition_made = ok tt;
  taken = λ id. false;
  created = ok tt;
  header_written = ok tt;
  manifest_saved = ok tt;
  rows_memory = true;
  frame_memory = λ n. true;
  index_memory = λ n. true;
  readable_memory = true;
  frame_written = ok tt;
  frame_synced = ok tt;
  torn = [];
}

abbrev no_value : Value ℕ
no_value = record { is_null = true; i64 = pos 0; u64 = 0; f64 = 0; bytes = [] }

abbrev two_rows : Request ℕ
two_rows = record {
  values = λ n. no_value;
  rows = replicate 16 0;
  row_count = 2;
  row_bytes = 16;
  ingestion_time = pos 1000;
}

abbrev options : CommitOptions
options = record {
  dictionary_limit_bytes = 4096;
  segment_target_bytes = 65536;
  database_read_only = false;
}

empty_table-IsAccounted : IsAccounted empty_table
empty_table-IsAccounted = record {
  segments = refl;
  bytes = refl;
  rows = refl;
  readable = refl;
  tail = tt;
}

commit-IsAccounted_example : IsAccounted (commit good_disk (two_rows ∷ []) options empty_table).0
commit-IsAccounted_example =
    commit-IsAccounted good_disk (two_rows ∷ []) options empty_table empty_table-IsAccounted
