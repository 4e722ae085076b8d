-- ===== src/Platform/AppNap/Safety.antt =====
-- internal/appnap/appnap_darwin.go: at most one activity goes on.
use fuse_stream_mvp.Base.{
  ℕ, zero, suc, ◌≡◌, refl, sym, subst, inl, inr, Bool, true, false, some, List, [], ◌∷◌, ◌++◌,
  arith, if◌then◌else◌, length, Bool-cases,
}
use fuse_stream_mvp.Platform.AppNap.{
  Activity, Release, does_nothing, ends_activity, begin_activity, keep_token, end_activity,
  prevent_app_nap_impl, run_release, Move, prevents, calls_release, step, run,
}

-- None of the activities goes on, or only the one at this place.
abbrev pub AllEnded : List Bool → Type 0
AllEnded [] = Unit {0}
AllEnded (t ∷ ts) = (t ≡ false) × AllEnded ts

abbrev pub OnlyAt : ℕ → List Bool → Type 0
OnlyAt k [] = ⊥
OnlyAt zero (t ∷ ts) = (t ≡ true) × AllEnded ts
OnlyAt (suc k) (t ∷ ts) = (t ≡ false) × OnlyAt k ts

pub record IsExact (a : Activity) : Type 0 where
  pub on : a.token_valid ≡ true → OnlyAt a.token_id a.activity_tokens
  pub off : a.token_valid ≡ false → AllEnded a.activity_tokens

append-OnlyAt : (ts : List Bool) → AllEnded ts → OnlyAt (length ts) (ts ++ true ∷ [])
append-OnlyAt [] h = (refl, tt)
append-OnlyAt (t ∷ ts) h = (h.0, append-OnlyAt ts h.1)

end_activity-AllEnded :
    (k : ℕ) (ts : List Bool)
    → OnlyAt k ts
    → AllEnded (end_activity k ts).0 × ((end_activity k ts).1 ≡ true)
unfolding end_activity
end_activity-AllEnded k [] h = absurd h
end_activity-AllEnded zero (t ∷ ts) h = ((refl, h.1), h.0)
end_activity-AllEnded (suc k) (t ∷ ts) h =
    let (ended, done) = end_activity-AllEnded k ts h.1 in ((h.0, ended), done)

keep_token-IsExact :
    (begins : Bool) (a : Activity)
    → a.token_valid ≡ false
    → IsExact a
    → IsExact (keep_token a (begin_activity begins a.activity_tokens)).0
unfolding keep_token begin_activity
keep_token-IsExact false a off v = record { on = v.on; off = v.off }
keep_token-IsExact true a off v = record {
  on = λ e. append-OnlyAt a.activity_tokens (v.off off);
  off = λ e. absurd (ground arith);
}

prevent_app_nap_impl-IsExact :
    (begins : Bool) (a : Activity) → IsExact a → IsExact (prevent_app_nap_impl begins a).0
unfolding prevent_app_nap_impl
prevent_app_nap_impl-IsExact begins a v = elim (Bool-cases a.token_valid) [
  | inl on ↦
      subst
        (λ b.
          IsExact
            (if b
              then (a, some does_nothing)
              else keep_token a (begin_activity begins a.activity_tokens)).0)
        (sym on) v
  | inr off ↦
      subst
        (λ b.
          IsExact
            (if b
              then (a, some does_nothing)
              else keep_token a (begin_activity begins a.activity_tokens)).0)
        (sym off) (keep_token-IsExact begins a off v)
]

run_release-IsExact : (r : Release) (a : Activity) → IsExact a → IsExact (run_release r a)
unfolding run_release
run_release-IsExact does_nothing a v = v
run_release-IsExact ends_activity a v = elim (Bool-cases a.token_valid) [
  | inr off ↦
      rw (off, run_release) (record { on = λ e. absurd (ground arith); off = λ e. v.off off })
  | inl on ↦
      rw (on, run_release)
        (record {
          on = λ e. absurd (ground arith);
          off = λ e. (end_activity-AllEnded a.token_id a.activity_tokens (v.on on)).0;
        })
]

-- Whatever calls of PreventAppNap are made and whichever of the returned functions are called, in
-- any order and however often: the activity of tokenID goes on and no other, or none does where no
-- token is valid.
pub run-IsExact : (ms : List Move) (a : Activity) → IsExact a → IsExact (run ms a)
unfolding run step
run-IsExact [] a v = v
run-IsExact (prevents b ∷ ms) a v = run-IsExact ms _ (prevent_app_nap_impl-IsExact b a v)
run-IsExact (calls_release r ∷ ms) a v = run-IsExact ms _ (run_release-IsExact r a v)
