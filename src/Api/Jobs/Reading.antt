-- ===== src/Api/Jobs/Reading.antt =====
-- internal/api/jobs.go: what is read from a response that describes some jobs.
use fuse_stream_mvp.Base.{ℕ, ◌≡◌, refl, some, List, [], ◌∷◌, ap}
use fuse_stream_mvp.Base.Words.{ℤ}
use fuse_stream_mvp.Base.Maps.{Text}
use fuse_stream_mvp.Api.Json.{
  number, string, array, object, Values, no_values, value, Fields, lookup, get_object, get_array,
}
use fuse_stream_mvp.Api.Jobs.{
  Output, Job, Response, key_id, key_name, key_size, key_mime_type, key_file, key_input,
  key_outputs, key_jobs, key_total, get_string, get_int64, input_name_of, output_of, outputs_of,
  job_of, jobs_of, jobs_response, read_response,
}

module _ (to_int64 : ℕ → ℤ) where
  -- The documented fields of a file, beside any others.
  pub record DescribesOutput (o : Output) (f : Fields) : Type 0 where
    pub id : lookup key_id f ≡ some (string o.file_id)
    pub name : lookup key_name f ≡ some (string o.file_name)
    pub size : (n : ℕ) × (lookup key_size f ≡ some (number n)) × (to_int64 n ≡ o.size)
    pub mime_type : lookup key_mime_type f ≡ some (string o.content_type)

  -- One object with a file for each output, in their order.
  abbrev pub DescribesOutputs : List Output → Values → Type 0
  DescribesOutputs [] vs = vs ≡ no_values
  DescribesOutputs (o ∷ os) vs =
      (m f : Fields) × (rest : Values) × (vs ≡ value (object m) rest)
      × (lookup key_file m ≡ some (object f))
      × DescribesOutput o f
      × DescribesOutputs os rest

  pub record DescribesJob (j : Job) (m : Fields) : Type 0 where
    pub id : lookup key_id m ≡ some (string j.id)
    pub input :
        (input file : Fields) × (lookup key_input m ≡ some (object input))
        × (lookup key_file input ≡ some (object file))
        × (lookup key_name file ≡ some (string j.input_name))
    pub outputs :
        (vs : Values) × (lookup key_outputs m ≡ some (array vs)) × DescribesOutputs j.outputs vs

  abbrev pub DescribesJobs : List Job → Values → Type 0
  DescribesJobs [] vs = vs ≡ no_values
  DescribesJobs (j ∷ js) vs =
      (m : Fields) × (rest : Values) × (vs ≡ value (object m) rest)
      × DescribesJob j m
      × DescribesJobs js rest

  -- A response of status 200 with these jobs and this total.
  abbrev pub DescribesResponse : List Job → ℤ → Response → Type 0
  DescribesResponse jobs total r =
      (r.status ≡ 200)
      × ((body : Fields) × (r.body ≡ some body)
          × ((n : ℕ) × (lookup key_total body ≡ some (number n)) × (to_int64 n ≡ total))
          × ((vs : Values) × (lookup key_jobs body ≡ some (array vs)) × DescribesJobs jobs vs))

  get_string_of :
      (m : Fields) (key s : Text) → lookup key m ≡ some (string s) → get_string m key ≡ s
  unfolding get_string
  get_string_of m key s e = rw (e, get_string) refl

  get_int64_of :
      (m : Fields) (key : Text) (z : ℤ)
      → (n : ℕ) × (lookup key m ≡ some (number n)) × (to_int64 n ≡ z)
      → get_int64 to_int64 m key ≡ z
  unfolding get_int64
  get_int64_of m key z (n, e, same) = rw (e, get_int64) same

  get_object_of :
      (m f : Fields) (key : Text) → lookup key m ≡ some (object f) → get_object key m ≡ some f
  unfolding get_object
  get_object_of m f key e = rw (e, get_object) refl

  get_array_of :
      (m : Fields) (vs : Values) (key : Text)
      → lookup key m ≡ some (array vs)
      → get_array key m ≡ some vs
  unfolding get_array
  get_array_of m vs key e = rw (e, get_array) refl

  output_of_described : (o : Output) (f : Fields) → DescribesOutput o f → output_of to_int64 f ≡ o
  unfolding output_of
  output_of_described o f d =
      let a = get_string_of f key_id o.file_id d.id in
      let b = get_string_of f key_name o.file_name d.name in
      let c = get_int64_of f key_size o.size d.size in
      let e = get_string_of f key_mime_type o.content_type d.mime_type in rw (a, b, c, e) refl

  outputs_of_described :
      (os : List Output) (vs : Values) → DescribesOutputs os vs → outputs_of to_int64 vs ≡ os
  unfolding outputs_of
  outputs_of_described [] vs e = rw (e, outputs_of) refl
  outputs_of_described (o ∷ os) vs (m, f, rest, e, at, d, ds) =
      let here = get_object_of m f key_file at in
      let first = output_of_described o f d in
      rw (e, outputs_of, here, first) (ap (◌∷◌ o) (outputs_of_described os rest ds))

  input_name_of_described :
      (m input file : Fields) (name : Text)
      → lookup key_input m ≡ some (object input)
      → lookup key_file input ≡ some (object file)
      → lookup key_name file ≡ some (string name)
      → input_name_of m ≡ name
  unfolding input_name_of
  input_name_of_described m input file name e g h =
      rw (get_object_of m input key_input e, get_object_of input file key_file g, input_name_of)
        (get_string_of file key_name name h)

  job_of_described : (j : Job) (m : Fields) → DescribesJob j m → job_of to_int64 m ≡ j
  unfolding job_of input_name_of
  job_of_described j m d =
      let (input, file, e, g, h) = d.input in
      let (vs, a, os) = d.outputs in
      let b = get_string_of m key_id j.id d.id in
      let c = input_name_of_described m input file j.input_name e g h in
      let f = outputs_of_described j.outputs vs os in
      rw (get_array_of m vs key_outputs a, b, c, f) refl

  jobs_of_described : (js : List Job) (vs : Values) → DescribesJobs js vs → jobs_of to_int64 vs ≡ js
  unfolding jobs_of
  jobs_of_described [] vs e = rw (e, jobs_of) refl
  jobs_of_described (j ∷ js) vs (m, rest, e, d, ds) =
      let first = job_of_described j m d in
      rw (e, jobs_of, first) (ap (◌∷◌ j) (jobs_of_described js rest ds))

  -- From a response of status 200 whose JSON has the documented fields of some jobs and their
  -- total, beside whatever other fields, ListJobsWithOptions reads these jobs and this total.
  pub read_response-described :
      (jobs : List Job) (total : ℤ) (r : Response)
      → DescribesResponse jobs total r
      → read_response to_int64 (some r) ≡ some (record { jobs = jobs; total = total })
  unfolding read_response jobs_response
  read_response-described jobs total r (okay, (body, e, counted, (vs, listed, d))) =
      let a = get_array_of body vs key_jobs listed in
      let b = get_int64_of body key_total total counted in
      rw (okay, e, a, b, jobs_of_described jobs vs d) refl
