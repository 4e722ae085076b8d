-- ===== src/Tests/Ui.antt =====
-- ui/app_common.go and internal/api/jobs.go: three jobs on two pages, and a file that is staged.
use fuse_stream_mvp.Base.{
  ℕ, zero, suc, ◌<◌, ◌≡◌, refl, ap, Option, none, some, length, if◌then◌else◌, List, [], ◌∷◌, arith,
  take, drop, map,
}
use fuse_stream_mvp.Base.Maps.{Text, text_beq}
use fuse_stream_mvp.Base.Words.{ℤ, pos, negsuc}
use fuse_stream_mvp.Api.Json.{
  number, string, array, object, Values, no_values, value, Fields, no_fields, field, lookup,
}
use fuse_stream_mvp.Api.Jobs.{
  Output, Job, Query, Response, Env, key_id, key_name, key_size, key_mime_type, key_file, key_input,
  key_outputs, key_jobs, key_total, read_response,
}
use fuse_stream_mvp.Api.Jobs.Reading.{
  DescribesOutput, DescribesOutputs, DescribesJob, DescribesJobs, DescribesResponse,
  read_response-described,
}
use fuse_stream_mvp.Api.TokenCache
use fuse_stream_mvp.Api.TokenCache.{TokenCache, get_token, is_usable, fetch_token, new_token_cache}
use fuse_stream_mvp.Ui.Jobs.{ListJobsResult, get_jobs_paginated, job_info}
use fuse_stream_mvp.Ui.Jobs.Paging.{HasJobs, page_request, jobs_of_pages, get_jobs_paginated-pages}

-- A code for the numbers of JSON.
abbrev further : ℤ → ℤ
further (pos n) = pos (suc n)
further (negsuc n) = negsuc (suc n)

abbrev decode : ℕ → ℤ
decode zero = pos 0
decode (suc zero) = negsuc 0
decode (suc (suc n)) = further (decode n)

abbrev code_pos : ℕ → ℕ
code_pos zero = 0
code_pos (suc n) = suc (suc (code_pos n))

abbrev code_neg : ℕ → ℕ
code_neg zero = 1
code_neg (suc n) = suc (suc (code_neg n))

abbrev code : ℤ → ℕ
code (pos n) = code_pos n
code (negsuc n) = code_neg n

decode-code_pos : (n : ℕ) → decode (code_pos n) ≡ pos n
decode-code_pos zero = refl
decode-code_pos (suc n) = ap further (decode-code_pos n)

decode-code_neg : (n : ℕ) → decode (code_neg n) ≡ negsuc n
decode-code_neg zero = refl
decode-code_neg (suc n) = ap further (decode-code_neg n)

decode-code : (z : ℤ) → decode (code z) ≡ z
decode-code (pos n) = decode-code_pos n
decode-code (negsuc n) = decode-code_neg n

abbrev file_fields : Output → Fields
file_fields o = field key_id (string o.file_id) (
    field key_name (string o.file_name) (
      field key_size (number (code o.size))
        (field key_mime_type (string o.content_type) no_fields)))

abbrev output_fields : Output → Fields
output_fields o = field key_file (object (file_fields o)) no_fields

abbrev output_values : List Output → Values
output_values [] = no_values
output_values (o ∷ os) = value (object (output_fields o)) (output_values os)

abbrev input_file : Job → Fields
input_file j = field key_name (string j.input_name) no_fields

abbrev input_fields : Job → Fields
input_fields j = field key_file (object (input_file j)) no_fields

abbrev job_fields : Job → Fields
job_fields j = field key_id (string j.id) (
    field key_input (object (input_fields j))
      (field key_outputs (array (output_values j.outputs)) no_fields))

abbrev job_values : List Job → Values
job_values [] = no_values
job_values (j ∷ js) = value (object (job_fields j)) (job_values js)

abbrev answer : List Job → ℤ → Response
answer js total = record {
  status = 200;
  body =
      some
        (field key_total (number (code total)) (field key_jobs (array (job_values js)) no_fields));
}

file_fields-described : (o : Output) → DescribesOutput decode o (file_fields o)
unfolding lookup
file_fields-described o = record {
  id = refl;
  name = refl;
  size = (code o.size, refl, decode-code o.size);
  mime_type = refl;
}

output_values-described : (os : List Output) → DescribesOutputs decode os (output_values os)
unfolding lookup
output_values-described [] = refl
output_values-described (o ∷ os) = (
  output_fields o,
  file_fields o,
  output_values os,
  refl,
  refl,
  file_fields-described o,
  output_values-described os,
)

job_fields-described : (j : Job) → DescribesJob decode j (job_fields j)
unfolding lookup
job_fields-described j = record {
  id = refl;
  input = (input_fields j, input_file j, refl, refl, refl);
  outputs = (output_values j.outputs, refl, output_values-described j.outputs);
}

job_values-described : (js : List Job) → DescribesJobs decode js (job_values js)
job_values-described [] = refl
job_values-described (j ∷ js) =
    (job_fields j, job_values js, refl, job_fields-described j, job_values-described js)

answer-described : (js : List Job) (total : ℤ) → DescribesResponse decode js total (answer js total)
unfolding lookup
answer-described js total = (
  refl,
  (_, refl, (code total, refl, decode-code total), (job_values js, refl, job_values-described js)),
)

abbrev job : ℕ → Job
job c = record {
  id = c ∷ [];
  input_name = c ∷ b'i' ∷ [];
  outputs =
      record { file_id = c ∷ b'f' ∷ []; file_name = b'n' ∷ []; size = pos 3; content_type = [] }
      ∷ [];
}

abbrev three_jobs : List Job
three_jobs = job b'a' ∷ job b'b' ∷ job b'c' ∷ []

read_response-described_example :
    read_response decode (some (answer three_jobs (pos 3)))
    ≡ some (record { jobs = three_jobs; total = pos 3 })
read_response-described_example =
    read_response-described decode three_jobs (pos 3) (answer three_jobs (pos 3))
      (answer-described three_jobs (pos 3))

abbrev window : List Job → ℤ → ℤ → List Job
window js (pos s) (pos l) = take l (drop s js)
window js _ _ = []

-- "i", which stands in the three names of the inputs, and a service that has a fourth job.
abbrev wanted : Text
wanted = b'i' ∷ []

abbrev selected : Option Text → List Job
selected none = record (job b'd') { input_name = [] } ∷ three_jobs
selected (some name) = if text_beq name wanted then three_jobs else []

abbrev service : Query → Option Response
service q = let js = selected q.name in some (answer (window js q.start q.limit) (pos (length js)))

service-HasJobs : HasJobs decode three_jobs 2 wanted service
unfolding text_beq
service-HasJobs q s l named sorted directed e h some_limit within = (
  answer (window (selected q.name) q.start q.limit) (pos (length (selected q.name))),
  refl,
  rw (named, e, h) (answer-described (take l (drop s three_jobs)) (pos 3)),
)

abbrev token_env : TokenCache.Env
token_env = record {
  first_check = 5;
  meanwhile = λ tc. tc;
  second_check = 6;
  response = some (record { access_token = b't' ∷ []; expires_in = 3600 });
  answered_at = 7;
}

abbrev call : Env
call = record { token = token_env; service = service }

token_given : (t : Text) × ((get_token token_env new_token_cache).1 ≡ some t)
unfolding get_token is_usable fetch_token
token_given = (b't' ∷ [], refl)

get_jobs_paginated-pages_example :
    (n : ℕ) × (0 < n)
    × ((k : ℕ)
        → k < n
        → (r : ListJobsResult) × ((get_jobs_paginated decode call
              (page_request decode three_jobs 2 wanted k)
              new_token_cache).1
            ≡ some r)
          × (r.total_pages ≡ pos n)
          × (r.total ≡ pos 3))
    × (jobs_of_pages decode three_jobs 2 wanted (λ i. call) (λ i. new_token_cache) n 0
        ≡ map job_info three_jobs)
get_jobs_paginated-pages_example =
    get_jobs_paginated-pages decode three_jobs 2 wanted (λ i. call) (λ i. new_token_cache)
      (omega arith) (omega arith) (omega arith) (λ i. service-HasJobs) (λ i. token_given)
