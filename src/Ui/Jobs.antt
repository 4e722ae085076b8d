-- ===== src/Ui/Jobs.antt =====
-- ui/app_common.go: the pages of jobs that the window shows. An `int` has 64 bits.
pub mod Counting
pub mod Paging
use fuse_stream_mvp.Base.{
  ℕ, zero, suc, Bool, true, false, Option, none, some, List, [], ◌∷◌, ◌>>=◌, map, if◌then◌else◌,
}
use fuse_stream_mvp.Base.Ints.{int64, ◌+ℤ◌, ◌*ℤ◌, quot, is_zero, is_negative}
use fuse_stream_mvp.Base.Maps.{Text}
use fuse_stream_mvp.Base.Words.{ℤ, pos, negsuc}
use fuse_stream_mvp.Api.Jobs.{
  Output, Job, ListJobsOptions, JobsResponse, Env, created_at, descending, list_jobs,
  list_jobs_with_options,
}
use fuse_stream_mvp.Api.TokenCache.{TokenCache}

pub record OutputInfo : Type 0 where
  pub file_id : Text
  pub file_name : Text
  pub size : ℤ
  pub content_type : Text

pub record JobInfo : Type 0 where
  pub id : Text
  pub input_name : Text
  pub outputs : List OutputInfo

pub record ListJobsRequest : Type 0 where
  pub page : ℤ
  pub page_size : ℤ
  pub name_filter : Text

pub record ListJobsResult : Type 0 where
  pub jobs : List JobInfo
  pub total : ℤ
  pub page : ℤ
  pub page_size : ℤ
  pub total_pages : ℤ

unfoldable pub output_info : Output → OutputInfo
output_info o = record {
  file_id = o.file_id;
  file_name = o.file_name;
  size = o.size;
  content_type = o.content_type;
}

unfoldable pub job_info : Job → JobInfo
job_info j = record { id = j.id; input_name = j.input_name; outputs = map output_info j.outputs }

-- The defaults of GetJobsPaginated.
unfoldable pub with_defaults : ListJobsRequest → ListJobsRequest
with_defaults r = record r {
  page_size = if is_zero r.page_size then pos 5 else r.page_size;
  page = if is_negative r.page then pos 0 else r.page;
}

unfoldable pub options_of : ListJobsRequest → ListJobsOptions
options_of r = record {
  start = int64 (r.page *ℤ r.page_size);
  limit = r.page_size;
  sort = created_at;
  direction = descending;
  name_filter = r.name_filter;
}

-- The division is not by zero, since the page size is not zero.
unfoldable pub total_pages : ℤ → ℤ → ℤ
total_pages total page_size =
    let n = int64 (quot (int64 (int64 (total +ℤ page_size) +ℤ negsuc 0)) page_size) in
    if is_zero n then pos 1 else n

unfoldable pub result_of : ListJobsRequest → JobsResponse → ListJobsResult
result_of r resp = record {
  jobs = map job_info resp.jobs;
  total = resp.total;
  page = r.page;
  page_size = r.page_size;
  total_pages = total_pages resp.total r.page_size;
}

unfoldable pub answer_of : ListJobsRequest → Option JobsResponse → Option ListJobsResult
answer_of r none = none
answer_of r (some resp) = some (result_of r resp)

module _ (to_int64 : ℕ → ℤ) where
  -- `none` is an error.
  unfoldable pub get_jobs : Env → TokenCache → TokenCache × Option (List JobInfo)
  get_jobs env tc =
      let (tc', jobs) = list_jobs to_int64 env tc in
      (tc', elim jobs [ none ↦ none | some js ↦ some (map job_info js) ])

  unfoldable pub get_jobs_paginated :
      Env → ListJobsRequest → TokenCache → TokenCache × Option ListJobsResult
  get_jobs_paginated env req tc =
      let r = with_defaults req in
      let (tc', resp) = list_jobs_with_options to_int64 env (options_of r) tc in
      (tc', answer_of r resp)
