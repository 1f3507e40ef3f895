-- ===== src/Query/Types.antt =====
-- The query of crates/neutra-core/src/query.rs. Strings are their bytes.
use neutrasearch.Base.{ℕ, Bool, false, List, [], Option, none, Bytes}
use neutrasearch.Record.{FileKind, FsKind}

pub data SortKey : Type 0 where
  relevance name_asc name_desc size_desc size_asc mtime_desc mtime_asc path_asc path_desc : SortKey

pub data MatchFields : Type 0 where
  name name_and_path path : MatchFields

pub record Query : Type 0 where
  pub terms : List Bytes
  pub exts : List Bytes
  pub kinds : List FileKind
  pub fss : List FsKind
  pub min_size : Option ℕ
  pub max_size : Option ℕ
  pub under : Option Bytes
  pub scope_roots : List Bytes
  pub scope_case_sensitive : Bool
  pub exclude_roots : List Bytes
  pub regex : Option Bytes
  pub case_sensitive : Bool
  pub match_fields : MatchFields
  pub whole_word : Bool
  pub fold_accents : Bool
  pub executable_only : Bool
  pub sort : SortKey
  pub limit : ℕ

-- `Query::default`
abbrev pub default_query : Query
default_query = record {
  terms = [];
  exts = [];
  kinds = [];
  fss = [];
  min_size = none;
  max_size = none;
  under = none;
  scope_roots = [];
  scope_case_sensitive = false;
  exclude_roots = [];
  regex = none;
  case_sensitive = false;
  match_fields = name_and_path;
  whole_word = false;
  fold_accents = false;
  executable_only = false;
  sort = relevance;
  limit = 1000;
}
