-- ===== src/Api/Jobs.antt =====
-- internal/api/jobs.go: the jobs of the media service.
--
-- `to_int64` is Go's conversion of a float64. `Env` is what one call meets: the token request, and the
-- service's answer to a query, `none` where the request fails; its body is `none` where it is not a
-- JSON object. The query has the parameters that are not the same in each request.
pub mod Reading
use fuse_stream_mvp.Base.{
  ℕ, Bool, true, false, Option, none, some, List, [], ◌∷◌, ◌==◌, ◌>>=◌, if◌then◌else◌,
}
use fuse_stream_mvp.Base.Ints.{is_zero}
use fuse_stream_mvp.Base.Maps.{Text, text_beq}
use fuse_stream_mvp.Base.Words.{ℤ, pos}
use fuse_stream_mvp.Api.Json.{
  Value, number, string, array, object, Values, no_values, value, Fields, lookup, get_object,
  get_array,
}
use fuse_stream_mvp.Api.TokenCache
use fuse_stream_mvp.Api.TokenCache.{TokenCache, get_token}

pub record Output : Type 0 where
  pub file_id : Text
  pub file_name : Text
  pub size : ℤ
  pub content_type : Text

pub record Job : Type 0 where
  pub id : Text
  pub input_name : Text
  pub outputs : List Output

pub record ListJobsOptions : Type 0 where
  pub start : ℤ
  pub limit : ℤ
  pub sort : Text
  pub direction : Text
  pub name_filter : Text

pub record JobsResponse : Type 0 where
  pub jobs : List Job
  pub total : ℤ

pub record Query : Type 0 where
  pub token : Text
  pub start : ℤ
  pub limit : ℤ
  pub sort : Text
  pub direction : Text
  pub name : Option Text

pub record Response : Type 0 where
  pub status : ℕ
  pub body : Option Fields

pub record Env : Type 0 where
  pub token : TokenCache.Env
  pub service : Query → Option Response

-- The names of the fields.
abbrev pub key_id : Text
key_id = b'i' ∷ b'd' ∷ []

abbrev pub key_name : Text
key_name = b'n' ∷ b'a' ∷ b'm' ∷ b'e' ∷ []

abbrev pub key_size : Text
key_size = b's' ∷ b'i' ∷ b'z' ∷ b'e' ∷ []

abbrev pub key_mime_type : Text
key_mime_type = b'm' ∷ b'i' ∷ b'm' ∷ b'e' ∷ b'_' ∷ b't' ∷ b'y' ∷ b'p' ∷ b'e' ∷ []

abbrev pub key_file : Text
key_file = b'f' ∷ b'i' ∷ b'l' ∷ b'e' ∷ []

abbrev pub key_input : Text
key_input = b'i' ∷ b'n' ∷ b'p' ∷ b'u' ∷ b't' ∷ []

abbrev pub key_outputs : Text
key_outputs = b'o' ∷ b'u' ∷ b't' ∷ b'p' ∷ b'u' ∷ b't' ∷ b's' ∷ []

abbrev pub key_jobs : Text
key_jobs = b'j' ∷ b'o' ∷ b'b' ∷ b's' ∷ []

abbrev pub key_total : Text
key_total = b't' ∷ b'o' ∷ b't' ∷ b'a' ∷ b'l' ∷ []

-- "created_at" and "-1"
abbrev pub created_at : Text
created_at = b'c' ∷ b'r' ∷ b'e' ∷ b'a' ∷ b't' ∷ b'e' ∷ b'd' ∷ b'_' ∷ b'a' ∷ b't' ∷ []

abbrev pub descending : Text
descending = b'-' ∷ b'1' ∷ []

unfoldable pub get_string : Fields → Text → Text
get_string m key = elim (lookup key m) [ some (string s) ↦ s | _ ↦ [] ]

-- The input's name, empty where something is missing.
unfoldable pub input_name_of : Fields → Text
input_name_of m = elim (get_object key_input m) [
  | none ↦ []
  | some input ↦ elim (get_object key_file input) [ none ↦ [] | some f ↦ get_string f key_name ]
]

-- The defaults of ListJobsWithOptions.
unfoldable pub with_defaults : ListJobsOptions → ListJobsOptions
with_defaults o = record o {
  limit = if is_zero o.limit then pos 20 else o.limit;
  sort = if text_beq o.sort [] then created_at else o.sort;
  direction = if text_beq o.direction [] then descending else o.direction;
}

unfoldable pub query_of : Text → ListJobsOptions → Query
query_of token o = record {
  token = token;
  start = o.start;
  limit = o.limit;
  sort = o.sort;
  direction = o.direction;
  name = if text_beq o.name_filter [] then none else some o.name_filter;
}

module _ (to_int64 : ℕ → ℤ) where
  unfoldable pub get_int64 : Fields → Text → ℤ
  get_int64 m key = elim (lookup key m) [ some (number n) ↦ to_int64 n | _ ↦ pos 0 ]

  unfoldable pub output_of : Fields → Output
  output_of f = record {
    file_id = get_string f key_id;
    file_name = get_string f key_name;
    size = get_int64 f key_size;
    content_type = get_string f key_mime_type;
  }

  -- The loop over the outputs; one that is no object or has no file is skipped.
  unfoldable pub outputs_of : Values → List Output
  outputs_of no_values = []
  outputs_of (value v vs) =
      let rest = outputs_of vs in
      elim v [
        | object m ↦ elim (get_object key_file m) [ none ↦ rest | some f ↦ output_of f ∷ rest ]
        | _ ↦ rest
      ]

  unfoldable pub job_of : Fields → Job
  job_of m = record {
    id = get_string m key_id;
    input_name = input_name_of m;
    outputs = elim (get_array key_outputs m) [ none ↦ [] | some vs ↦ outputs_of vs ];
  }

  -- The loop over the jobs; one that is no object is skipped.
  unfoldable pub jobs_of : Values → List Job
  jobs_of no_values = []
  jobs_of (value v vs) = let rest = jobs_of vs in elim v [ object m ↦ job_of m ∷ rest | _ ↦ rest ]

  unfoldable pub jobs_response : Fields → JobsResponse
  jobs_response data_ = record {
    jobs = elim (get_array key_jobs data_) [ none ↦ [] | some vs ↦ jobs_of vs ];
    total = get_int64 data_ key_total;
  }

  -- From the answer on; `none` is an error.
  unfoldable pub read_response : Option Response → Option JobsResponse
  read_response answer = do
    r ← answer
    body ← if r.status == 200 then r.body else none
    some (jobs_response body)

  -- From the token on.
  unfoldable pub request_jobs : Env → ListJobsOptions → Option Text → Option JobsResponse
  request_jobs env opts none = none
  request_jobs env opts (some t) = read_response (env.service (query_of t (with_defaults opts)))

  unfoldable pub list_jobs_with_options :
      Env → ListJobsOptions → TokenCache → TokenCache × Option JobsResponse
  list_jobs_with_options env opts tc =
      let (tc', token) = get_token env.token tc in (tc', request_jobs env opts token)

  unfoldable pub list_jobs : Env → TokenCache → TokenCache × Option (List Job)
  list_jobs env tc =
      let opts : ListJobsOptions = record {
        start = pos 0;
        limit = pos 0;
        sort = [];
        direction = [];
        name_filter = [];
      } in
      let (tc', r) = list_jobs_with_options env opts tc in
      (tc', elim r [ none ↦ none | some resp ↦ some resp.jobs ])
