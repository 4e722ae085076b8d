-- ===== src/Fetcher/TempFiles/Eviction.antt =====
-- internal/fetcher/tempfile_manager.go: what EnsureSpaceAvailable evicts, and how it can end.
use mathlib.Core.List.{append-nil, append_assoc}
use fuse_stream_mvp.Base.{
  ℕ, suc, ◌≤◌, ◌≡◌, refl, ◌≢◌, inl, inr, ◌∙◌, sym, ap, subst, false, ◌&&◌, none, some, List, [],
  ◌∷◌, ◌++◌, ltb, arith, length, if◌then◌else◌, Bool-cases, Option-cases, ltb→lt,
}
use fuse_stream_mvp.Base.Maps.{
  Text, get, delete, text_eq, text_beq, text_beq_iff, text_beq_refl, get-delete, get-delete_ne,
  get_of_get-delete, delete_absent, IsMap,
}
use fuse_stream_mvp.Fetcher.TempFiles.{
  Info, Files, Env, check_space_available, Entry, entries_of, insert_entry, sort_entries, Event,
  notifies, removes, notify, Ensured, ok, panics, Outcome, evict_loop, max_temp_files,
}

-- The entries list all the files, those of the least recent access first.
abbrev pub Queue : List Entry → Files → Type 0
Queue [] files = (q : Text) → get q files ≡ none
Queue (e ∷ es) files =
    ((info : Info) × (get e.path files ≡ some info) × (info.last_access ≡ e.last_access))
    × ((q : Text) (j : Info) → get q files ≡ some j → e.last_access ≤ j.last_access)
    × Queue es (delete e.path files)

ne_of_get :
    (a b : Text) (files : Files) (i : Info)
    → get a files ≡ some i
    → get b files ≡ none
    → text_beq b a ≡ false
ne_of_get a b files i found missing = elim (Bool-cases (text_beq b a)) [
  | inr apart ↦ apart
  | inl same ↦ absurd (ground (arith, (text_beq_iff b a).0 same))
]

front-Queue :
    (e : Entry) (info : Info) (es : List Entry) (files : Files)
    → info.last_access ≡ e.last_access
    → get e.path files ≡ none
    → ((q : Text) (j : Info) → get q files ≡ some j → e.last_access ≤ j.last_access)
    → Queue es files
    → Queue (e ∷ es) ((e.path, info) ∷ files)
unfolding get delete
front-Queue e info es files same new least q = (
  (info, rw (text_beq_refl e.path) refl, same),
  bound,
  rw (text_beq_refl e.path) (subst (Queue es) (sym (delete_absent e.path files new)) q),
)
  where
    bound :
        (k : Text) (j : Info)
        → (if text_beq e.path k then some info else get k files) ≡ some j
        → e.last_access ≤ j.last_access
    bound k j h = ground (arith, least k j)

insert_entry-Queue :
    (e : Entry) (info : Info) (es : List Entry) (files : Files)
    → info.last_access ≡ e.last_access
    → get e.path files ≡ none
    → Queue es files
    → Queue (insert_entry e es) ((e.path, info) ∷ files)
unfolding insert_entry get delete
insert_entry-Queue e info [] files same new q =
    front-Queue e info [] files same new (λ k j h. ground (arith, q k)) q
insert_entry-Queue e info (x ∷ es) files same new q =
    elim (Bool-cases (ltb x.last_access e.last_access)) [
      | inr older ↦
          rw older
            (front-Queue e info (x ∷ es) files same new (λ k j h. ground (arith, q.1 k j h)) q)
      | inl newer ↦
          let ((old, found, at), least, rest) = q in
          let apart : text_beq e.path x.path ≡ false =
            ne_of_get x.path e.path files old found new in
          let still : get e.path (delete x.path files) ≡ none =
            ground (arith, get-delete e.path x.path files) in
          rw (newer, apart)
            (
              (old, found, at),
              λ k j h. ground (arith, least k j, ltb→lt _ _ newer),
              insert_entry-Queue e info es (delete x.path files) same still rest,
            )
    ]

pub sort_entries-Queue :
    (files : Files) → IsMap files → Queue (sort_entries (entries_of files)) files
unfolding sort_entries entries_of get
sort_entries-Queue [] m = λ q. refl
sort_entries-Queue ((path, info) ∷ files) m =
    insert_entry-Queue _ info (sort_entries (entries_of files)) files refl m.0
      (sort_entries-Queue files m.1)

-- No other goroutine touches the files during the call.
abbrev pub IsAlone : Env → Type 0
IsAlone env = (k : ℕ) (files : Files) → env.meanwhile k files ≡ files

-- The event list has the callback of the store directly before the removal of the path.
abbrev pub IsNotified : Text → ℕ → List Event → Type 0
IsNotified p store trace =
    (a : List Event) × (b : List Event) × (trace ≡ a ++ notifies store ∷ removes p ∷ b)

-- From `files` to the outcome, the oldest files have gone, each after its callback.
pub record IsEviction (files : Files) (trace : List Event) (o : Outcome) : Type 0 where
  pub kept : (q : Text) (j : Info) → get q o.files ≡ some j → get q files ≡ some j
  pub oldest :
      (p q : Text) (i j : Info)
      → get p files ≡ some i
      → get p o.files ≡ none
      → get q o.files ≡ some j
      → i.last_access ≤ j.last_access
  pub traced : (more : List Event) × (o.trace ≡ trace ++ more)
  pub notified :
      (p : Text) (i : Info) (store : ℕ)
      → get p files ≡ some i
      → get p o.files ≡ none
      → i.on_evict ≡ some store
      → IsNotified p store o.trace
  pub calm : o.result ≢ panics

pub stay-IsEviction :
    (files : Files) (trace : List Event) (k : ℕ) (r : Ensured)
    → r ≢ panics
    → IsEviction files trace (record { result = r; files = files; trace = trace; asked = k })
stay-IsEviction files trace k r calm = record {
  kept = λ q j h. h;
  oldest = λ p q i j a b c. cc;
  traced = ([], sym (append-nil trace));
  notified = λ p i store a b c. cc;
  calm = calm;
}

-- One more eviction before those of `o`: that of `path`, older than all.
module _ (path : Text) (info : Info) (files : Files) (trace : List Event) (o : Outcome)
    (found : get path files ≡ some info)
    (least : (q : Text) (j : Info) → get q files ≡ some j → info.last_access ≤ j.last_access)
    (rest : IsEviction
      (delete path files)
      (trace ++ (notify info.on_evict ++ removes path ∷ []))
      o) where
  more-kept : (q : Text) (j : Info) → get q o.files ≡ some j → get q files ≡ some j
  more-kept q j h = get_of_get-delete q path files j (rest.kept q j h)

  more-oldest :
      (p q : Text) (i j : Info)
      → get p files ≡ some i
      → get p o.files ≡ none
      → get q o.files ≡ some j
      → i.last_access ≤ j.last_access
  more-oldest p q i j a b c = elim (Bool-cases (text_beq path p)) [
    | inl same ↦
        let e : path ≡ p = (text_beq_iff path p).0 same in
        ground (arith, e, least q j (more-kept q j c))
    | inr apart ↦ rest.oldest p q i j (get-delete_ne p path files apart ∙ a) b c
  ]

  more-IsNotified :
      (p : Text) (i : Info) (store : ℕ)
      → get p files ≡ some i
      → get p o.files ≡ none
      → i.on_evict ≡ some store
      → IsNotified p store o.trace
  more-IsNotified p i store a b c = elim (Bool-cases (text_beq path p)) [
    | inr apart ↦ rest.notified p i store (get-delete_ne p path files apart ∙ a) b c
    | inl same ↦
        let e : path ≡ p = (text_beq_iff path p).0 same in
        let (later, shown) = rest.traced in
        let called : info.on_evict ≡ some store = ground (arith, e) in
        (
          trace,
          later,
          shown
              ∙ ap (λ n. (trace ++ (notify n ++ removes path ∷ [])) ++ later) called
              ∙ ap (λ r. (trace ++ notifies store ∷ removes r ∷ []) ++ later) e
              ∙ append_assoc trace (notifies store ∷ removes p ∷ []) later,
        )
  ]

  more-IsEviction : IsEviction files trace o
  more-IsEviction =
      let (later, shown) = rest.traced in
      record {
        kept = more-kept;
        oldest = more-oldest;
        traced = (
          (notify info.on_evict ++ removes path ∷ []) ++ later,
          shown ∙ append_assoc trace (notify info.on_evict ++ removes path ∷ []) later,
        );
        notified = more-IsNotified;
        calm = rest.calm;
      }

-- The system with no other goroutine.
abbrev pub calm_env : Env → Env
calm_env env = record env { meanwhile = λ k files. files }

pub calm_env_alone : (env : Env) → IsAlone env → calm_env env ≡ env
calm_env_alone env alone i = record env { meanwhile = λ k files. sym (alone k files) i }

pub evict_loop-IsEviction :
    (env : Env) (k size : ℕ) (es : List Entry) (files : Files) (trace : List Event)
    → Queue es files
    → IsEviction files trace (evict_loop (calm_env env) k size es files trace)
unfolding evict_loop
evict_loop-IsEviction env k size [] files trace q = stay-IsEviction files trace k ok (λ e. cc)
evict_loop-IsEviction env k size (e ∷ es) files trace ((info, found, at), least, rest) =
    elim (Option-cases (check_space_available (calm_env env) k size files)) [
      | inl broken ↦ rw (broken, evict_loop) (stay-IsEviction files trace (suc k) _ (λ p. cc))
      | inr (space, e1) ↦ elim (Bool-cases (space && ltb (length files) max_temp_files)) [
        | inl enough ↦
            rw (e1, enough, evict_loop) (stay-IsEviction files trace (suc k) ok (λ p. cc))
        | inr short ↦
            rw (e1, short, found, evict_loop)
              (more-IsEviction e.path info files trace _ found (λ q j h. rw at (least q j h))
                (evict_loop-IsEviction env (suc k) size es (delete e.path files) _ rest))
      ]
    ]
