-- ===== src/Fetcher/TempFiles/Space.antt =====
-- internal/fetcher/tempfile_manager.go: how EnsureSpaceAvailable can end.
use fuse_stream_mvp.Base.{
  ℕ, ◌<◌, ◌≡◌, refl, ◌≢◌, inl, inr, ◌⊎◌, ◌∙◌, sym, subst, ap, Bool, true, ◌&&◌, some, List, [], ltb,
  arith, length, Bool-cases, Option-cases,
}
use fuse_stream_mvp.Base.Maps.{IsMap, text_eq}
use fuse_stream_mvp.Fetcher.TempFiles.{
  Files, Env, check_space_available, entries_of, sort_entries, Event, disk_usage_failed, Ensured,
  ok, fails, panics, Outcome, evict_loop, judge, final_check, finish, ensure_space_available,
  max_temp_files,
}
use fuse_stream_mvp.Fetcher.TempFiles.Eviction.{
  sort_entries-Queue, IsAlone, calm_env, calm_env_alone, IsEviction, stay-IsEviction,
  evict_loop-IsEviction,
}

judge-ne-panics : (space : Bool) (count : ℕ) → judge space count ≢ panics
unfolding judge
judge-ne-panics space count = ground arith

judge_ok :
    (space : Bool) (count : ℕ) → judge space count ≡ ok → (space ≡ true) × (count < max_temp_files)
unfolding judge
judge_ok space count h = ground arith

-- The result of the last check.
abbrev IsJudged : Env → ℕ → ℕ → Files → Ensured → Type 0
IsJudged env k size files r =
    (r ≢ panics)
    × (r ≡ ok
        → (length files < max_temp_files) × (check_space_available env k size files ≡ some true))

final_check_calm :
    (env : Env) (k size : ℕ) (files : Files)
    → (r : Ensured) × (final_check (calm_env env) k size files ≡ (files, r))
      × IsJudged (calm_env env) k size files r
unfolding final_check
final_check_calm env k size files =
    elim (Option-cases (check_space_available (calm_env env) k size files)) [
      | inl broken ↦ (
        fails disk_usage_failed,
        rw (broken, final_check) refl,
        ((λ e. cc), λ e. absurd (ground arith)),
      )
      | inr (space, found) ↦ (
        judge space (length files),
        rw (found, final_check) refl,
        (
          judge-ne-panics space (length files),
          λ e. let (enough, few) = judge_ok space (length files) e in (few, found ∙ ap some enough),
        ),
      )
    ]

abbrev finish_with : Env → ℕ → Outcome → Ensured → Outcome
finish_with env size o r = elim r [
  | ok ↦
      let (files, result) = final_check (calm_env env) o.asked size o.files in
      record o { result = result; files = files }
  | fails e ↦ o
  | panics ↦ o
]

-- The end of the call leaves an outcome that is not `ok` alone, and judges one that is.
finish_cases :
    (env : Env) (size : ℕ) (o : Outcome)
    → ((o.result ≢ ok) × (finish (calm_env env) size o ≡ o))
      ⊎ ((r : Ensured) × (finish (calm_env env) size o ≡ record o { result = r })
          × IsJudged (calm_env env) o.asked size o.files r)
unfolding finish
finish_cases env size o = go o.result refl
  where
    go :
        (r : Ensured)
        → o.result ≡ r
        → ((o.result ≢ ok) × (finish (calm_env env) size o ≡ o))
          ⊎ ((r : Ensured) × (finish (calm_env env) size o ≡ record o { result = r })
              × IsJudged (calm_env env) o.asked size o.files r)
    go ok e =
        let (r, is, judged) = final_check_calm env o.asked size o.files in
        let same : finish (calm_env env) size o ≡ record o { result = r } =
          ap (finish_with env size o) e
          ∙ ap (λ (f : Files × Ensured). record o { result = f.1; files = f.0 }) is in
        inr (r, same, judged)
    go (fails x) e = inl ((λ h. cc), ap (finish_with env size o) e)
    go panics e = inl ((λ h. cc), ap (finish_with env size o) e)

finish-IsEviction :
    (env : Env) (size : ℕ) (files : Files) (trace : List Event) (o : Outcome)
    → IsEviction files trace o
    → IsEviction files trace (finish (calm_env env) size o)
finish-IsEviction env size files trace o v = elim (finish_cases env size o) [
  | inl (other, same) ↦ subst (IsEviction files trace) (sym same) v
  | inr (r, same, (calm, room)) ↦ subst (IsEviction files trace) (sym same) (record {
    kept = v.kept;
    oldest = v.oldest;
    traced = v.traced;
    notified = v.notified;
    calm = calm;
  })
]

ensure_space_available-IsEviction_calm :
    (env : Env) (size : ℕ) (files : Files)
    → IsMap files
    → IsEviction files [] (ensure_space_available (calm_env env) size files)
unfolding ensure_space_available
ensure_space_available-IsEviction_calm env size files m =
    elim (Option-cases (check_space_available (calm_env env) 0 size files)) [
      | inl broken ↦ rw (broken, ensure_space_available) (stay-IsEviction files [] 1 _ (λ p. cc))
      | inr (space, e) ↦ elim (Bool-cases (space && ltb (length files) max_temp_files)) [
        | inl enough ↦
            rw (e, enough, ensure_space_available) (stay-IsEviction files [] 1 ok (λ p. cc))
        | inr short ↦
            rw (e, short, ensure_space_available)
              (finish-IsEviction env size files [] _ (
                evict_loop-IsEviction env 1 size (sort_entries (entries_of files)) files []
                  (sort_entries-Queue files m)))
      ]
    ]

-- With no other goroutine at the files, EnsureSpaceAvailable does not panic, keeps what it keeps as
-- it was, evicts no file that was accessed later than one it keeps, and removes each file directly
-- after the callback of its store.
pub ensure_space_available-IsEviction :
    (env : Env) (size : ℕ) (files : Files)
    → IsAlone env
    → IsMap files
    → IsEviction files [] (ensure_space_available env size files)
ensure_space_available-IsEviction env size files alone m =
    subst (λ e. IsEviction files [] (ensure_space_available e size files))
      (calm_env_alone env alone) (ensure_space_available-IsEviction_calm env size files m)

-- The files left have room for one more, by the count and by the check of the disk.
abbrev pub HasRoom : Env → ℕ → Files → Type 0
HasRoom env size files =
    (length files < max_temp_files)
    × ((k : ℕ) × (check_space_available env k size files ≡ some true))

finish_ok :
    (env : Env) (size : ℕ) (o : Outcome)
    → (finish (calm_env env) size o).result ≡ ok
    → HasRoom (calm_env env) size (finish (calm_env env) size o).files
finish_ok env size o h = elim (finish_cases env size o) [
  | inl (other, same) ↦ absurd (other (sym (ap (λ t. t.result) same) ∙ h))
  | inr (r, same, (calm, room)) ↦
      let (few, enough) = room (sym (ap (λ t. t.result) same) ∙ h) in
      subst (λ t. HasRoom (calm_env env) size t.files) (sym same) (few, (o.asked, enough))
]

ensure_space_available-HasRoom_calm :
    (env : Env) (size : ℕ) (files : Files)
    → (ensure_space_available (calm_env env) size files).result ≡ ok
    → HasRoom (calm_env env) size (ensure_space_available (calm_env env) size files).files
unfolding ensure_space_available
ensure_space_available-HasRoom_calm env size files h =
    elim (Option-cases (check_space_available (calm_env env) 0 size files)) [
      | inl broken ↦ absurd (ground arith)
      | inr (space, e) ↦ elim (Bool-cases (space && ltb (length files) max_temp_files)) [
        | inl enough ↦
            rw (e, enough, ensure_space_available) (ground arith, (0, e ∙ ap some (ground arith)))
        | inr short ↦
            let o = evict_loop (calm_env env) 1 size (sort_entries (entries_of files)) files [] in
            rw (e, short, ensure_space_available) (finish_ok env size o (ground arith))
      ]
    ]

-- With no other goroutine at the files, where EnsureSpaceAvailable succeeds there is room for one more
-- file: fewer than ten are left, and a check of the disk found the space for it beside them.
pub ensure_space_available-HasRoom :
    (env : Env) (size : ℕ) (files : Files)
    → IsAlone env
    → (ensure_space_available env size files).result ≡ ok
    → HasRoom env size (ensure_space_available env size files).files
ensure_space_available-HasRoom env size files alone =
    subst
      (λ e.
        (ensure_space_available e size files).result ≡ ok
        → HasRoom e size (ensure_space_available e size files).files)
      (calm_env_alone env alone) (ensure_space_available-HasRoom_calm env size files)
