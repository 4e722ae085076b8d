-- ===== src/Ui/Jobs/Paging.antt =====
-- ui/app_common.go: the pages that GetJobsPaginated gives, one after the other.
use native.Mathlib.Nat.{suc-mul}
use mathlib.Core.List.{map-append}
use fuse_stream_mvp.Base.{
  ℕ, zero, suc, ◌+◌, ◌*◌, ◌≤◌, ◌<◌, ◌≡◌, refl, sym, ap, ap₂, ◌∙◌, Option, none, some, List, [],
  ◌++◌, map, arith, length, take, drop, drop-drop, take-append-take-drop, take_of_length-le,
  if◌then◌else◌,
}
use fuse_stream_mvp.Base.Ints.{int64-pos, times-pos}
use fuse_stream_mvp.Base.Maps.{Text, text_beq}
use fuse_stream_mvp.Base.Words.{ℤ, pos}
use fuse_stream_mvp.Api.Jobs.{
  Job, JobsResponse, Query, Response, Env, created_at, descending, list_jobs_with_options, query_of,
  request_jobs, read_response,
}
use fuse_stream_mvp.Api.Jobs
use fuse_stream_mvp.Api.Jobs.Reading.{DescribesResponse, read_response-described}
use fuse_stream_mvp.Api.TokenCache.{TokenCache, get_token}
use fuse_stream_mvp.Ui.Jobs.{
  JobInfo, ListJobsRequest, ListJobsResult, job_info, with_defaults, options_of, answer_of,
  result_of, get_jobs_paginated,
}
use fuse_stream_mvp.Ui.Jobs.Counting.{
  int64_limit, page_count, total_pages_of, page_count-covers, page_start-lt, is_zero-pos,
}

-- The limit that the service documents.
abbrev pub max_limit : ℕ
max_limit = 5000

abbrev jobs_in : Option ListJobsResult → List JobInfo
jobs_in none = []
jobs_in (some r) = r.jobs

module _ (to_int64 : ℕ → ℤ) (all : List Job) (size : ℕ) (filter : Text) where
  -- What a query asks for by name: nothing for an empty filter.
  abbrev pub asked_name : Option Text
  asked_name = if text_beq filter [] then none else some filter

  -- To a query by this filter, by creation time and descending, with a limit that the service takes, it
  -- gives of `all`, the jobs that the filter selects in this order, those from the start on, up to the
  -- limit, and counts all of them.
  abbrev pub HasJobs : (Query → Option Response) → Type 0
  HasJobs service =
      (q : Query) (s l : ℕ)
      → q.name ≡ asked_name
      → q.sort ≡ created_at
      → q.direction ≡ descending
      → q.start ≡ pos s
      → q.limit ≡ pos l
      → 0 < l
      → l ≤ max_limit
      → (r : Response) × (service q ≡ some r)
        × DescribesResponse to_int64 (take l (drop s all)) (pos (length all)) r

  abbrev pub page_request : ℕ → ListJobsRequest
  page_request k = record { page = pos k; page_size = pos size; name_filter = filter }

  abbrev page_result : ℕ → ListJobsResult
  page_result k = record {
    jobs = map job_info (take size (drop (k * size) all));
    total = pos (length all);
    page = pos k;
    page_size = pos size;
    total_pages = pos (page_count (length all) size);
  }

  with_defaults_page : (k : ℕ) → 0 < size → with_defaults (page_request k) ≡ page_request k
  unfolding with_defaults
  with_defaults_page k some_size = rw (is_zero-pos size some_size) refl

  abbrev page_query : Text → ℕ → Query
  page_query token k = query_of token (Jobs.with_defaults (options_of (page_request k)))

  start_of_page :
      (token : Text) (k : ℕ) → k * size < int64_limit → (page_query token k).start ≡ pos (k * size)
  unfolding query_of Jobs.with_defaults options_of
  start_of_page token k small = rw (times-pos k size) (int64-pos (k * size) small)

  limit_of_page : (token : Text) (k : ℕ) → 0 < size → (page_query token k).limit ≡ pos size
  unfolding query_of Jobs.with_defaults options_of
  limit_of_page token k some_size = rw (is_zero-pos size some_size) refl

  -- The filter and the order of the query are those of the request.
  asked_of_page :
      (token : Text) (k : ℕ)
      → ((page_query token k).name ≡ asked_name)
        × ((page_query token k).sort ≡ created_at)
        × ((page_query token k).direction ≡ descending)
  unfolding query_of Jobs.with_defaults options_of text_beq
  asked_of_page token k = (refl, refl, refl)

  result_of_page :
      (k : ℕ)
      → 0 < size
      → length all + size < int64_limit
      → result_of
          (page_request k)
          (record { jobs = take size (drop (k * size) all); total = pos (length all) })
        ≡ page_result k
  unfolding result_of
  result_of_page k some_size small = rw (total_pages_of (length all) size some_size small) refl

  list_jobs_with_options-page :
      (env : Env) (tc : TokenCache) (k : ℕ) (token : Text)
      → 0 < size
      → size ≤ max_limit
      → length all + size < int64_limit
      → k < page_count (length all) size
      → HasJobs env.service
      → (get_token env.token tc).1 ≡ some token
      → (list_jobs_with_options to_int64 env (options_of (page_request k)) tc).1
        ≡ some (record { jobs = take size (drop (k * size) all); total = pos (length all) })
  unfolding list_jobs_with_options request_jobs
  list_jobs_with_options-page env tc k token some_size within small h has e =
      let start = start_of_page token k (page_start-lt (length all) size k some_size small h) in
      let (named, sorted, directed) = asked_of_page token k in
      let (r, answered, d) =
        has (page_query token k) (k * size) size named sorted directed start
          (limit_of_page token k some_size) some_size within in
      ap (request_jobs to_int64 env (options_of (page_request k))) e
      ∙ ap (read_response to_int64) answered
      ∙ read_response-described to_int64 _ _ r d

  get_jobs_paginated-page :
      (env : Env) (tc : TokenCache) (k : ℕ) (token : Text)
      → 0 < size
      → size ≤ max_limit
      → length all + size < int64_limit
      → k < page_count (length all) size
      → HasJobs env.service
      → (get_token env.token tc).1 ≡ some token
      → (get_jobs_paginated to_int64 env (page_request k) tc).1 ≡ some (page_result k)
  unfolding get_jobs_paginated answer_of
  get_jobs_paginated-page env tc k token some_size within small h has e =
      let read = list_jobs_with_options-page env tc k token some_size within small h has e in
      let same = with_defaults_page k some_size in
      ap (λ r. answer_of r (list_jobs_with_options to_int64 env (options_of r) tc).1) same
      ∙ ap (answer_of (page_request k)) read
      ∙ ap some (result_of_page k some_size small)

  windows-append :
      (m k : ℕ)
      → map job_info (take size (drop (k * size) all))
          ++ map job_info (take (m * size) (drop (suc k * size) all))
        ≡ map job_info (take (suc m * size) (drop (k * size) all))
  windows-append m k =
      let here = drop (k * size) all in
      let next = drop-drop size (k * size) (suc k * size) all (omega (arith, suc-mul k size)) in
      let joined =
        take-append-take-drop size (m * size) (suc m * size) here (omega (arith, suc-mul m size)) in
      sym (map-append job_info (take size here) (take (m * size) (drop (suc k * size) all)))
      ∙ ap (map job_info) (ap (λ xs. take size here ++ take (m * size) xs) (sym next) ∙ joined)

  -- The jobs of `m` pages from page `k` on, where the calls meet these systems and caches.
  abbrev pub jobs_of_pages : (ℕ → Env) → (ℕ → TokenCache) → ℕ → ℕ → List JobInfo
  jobs_of_pages envs tcs zero k = []
  jobs_of_pages envs tcs (suc m) k =
      jobs_in (get_jobs_paginated to_int64 (envs k) (page_request k) (tcs k)).1
      ++ jobs_of_pages envs tcs m (suc k)

  jobs_of_pages-window :
      (envs : ℕ → Env) (tcs : ℕ → TokenCache) (m k : ℕ)
      → 0 < size
      → size ≤ max_limit
      → length all + size < int64_limit
      → m + k ≤ page_count (length all) size
      → ((i : ℕ) → HasJobs (envs i).service)
      → ((i : ℕ) → (t : Text) × ((get_token (envs i).token (tcs i)).1 ≡ some t))
      → jobs_of_pages envs tcs m k ≡ map job_info (take (m * size) (drop (k * size) all))
  unfolding take
  jobs_of_pages-window envs tcs zero k some_size within small h has tokens =
      let no_jobs : 0 * size ≡ 0 = omega arith in rw no_jobs refl
  jobs_of_pages-window envs tcs (suc m) k some_size within small h has tokens =
      let (t, e) = tokens k in
      let page =
        get_jobs_paginated-page (envs k) (tcs k) k t some_size within small (omega arith) (has k)
          e in
      let rest =
        jobs_of_pages-window envs tcs m (suc k) some_size within small (omega arith) has tokens in
      ap₂ (λ xs ys. xs ++ ys) (ap jobs_in page) rest ∙ windows-append m k

  all_windows : 0 < size → take (page_count (length all) size * size) (drop (0 * size) all) ≡ all
  unfolding drop
  all_windows some_size =
      let at_start : 0 * size ≡ 0 = omega arith in
      ap (λ k. take (page_count (length all) size * size) (drop k all)) at_start
      ∙ take_of_length-le _ all (page_count-covers (length all) size some_size)

  -- Over a service that, to a query by the given name filter (by none where it is empty), by
  -- creation time and descending, with a limit from 1 to 5000, gives of the jobs that the filter
  -- selects, in this order, those from the start on up to the limit, with their total number; for
  -- a page size from 1 to 5000, no sum of both beyond 63 bits, and a token at each call: every
  -- page below TotalPages succeeds, each tells the same TotalPages, which is positive, and the
  -- true total, and the pages one after the other have all these jobs, each once and in order.
  pub get_jobs_paginated-pages :
      (envs : ℕ → Env) (tcs : ℕ → TokenCache)
      → 0 < size
      → size ≤ max_limit
      → length all + size < int64_limit
      → ((i : ℕ) → HasJobs (envs i).service)
      → ((i : ℕ) → (t : Text) × ((get_token (envs i).token (tcs i)).1 ≡ some t))
      → (n : ℕ) × (0 < n)
        × ((k : ℕ)
            → k < n
            → (r : ListJobsResult) × ((get_jobs_paginated to_int64
                  (envs k)
                  (page_request k)
                  (tcs k)).1
                ≡ some r)
              × (r.total_pages ≡ pos n)
              × (r.total ≡ pos (length all)))
        × (jobs_of_pages envs tcs n 0 ≡ map job_info all)
  get_jobs_paginated-pages envs tcs some_size within small has tokens = (
    page_count (length all) size,
    ground arith,
    λ k h.
        let (t, e) = tokens k in
        (
          page_result k,
          get_jobs_paginated-page (envs k) (tcs k) k t some_size within small h (has k) e,
          refl,
          refl,
        ),
    jobs_of_pages-window envs tcs (page_count (length all) size) 0 some_size within small
          (omega arith) has tokens
        ∙ ap (map job_info) (all_windows some_size),
  )
