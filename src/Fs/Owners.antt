-- ===== src/Fs/Owners.antt =====
-- internal/fs/fs_fuse.go: which staged file owns a backing store.
pub mod Calls
pub mod Staging
pub mod Runs
use fuse_stream_mvp.Base.{
  ℕ, ◌≡◌, refl, inl, inr, Bool, true, false, not, Option, none, some, arith, if◌then◌else◌,
  Bool-cases, Option-cases, ◌==◌, ==_iff, ◌∙◌, sym,
}
use fuse_stream_mvp.Base.Maps.{
  Map, Text, text_beq, text_beq_iff, get, put, delete, nat_eq, text_eq, get-put, get-delete,
}
use fuse_stream_mvp.Fs.{Fs, Staged, Store, change_store, close_store}

-- The store of a staged file.
unfoldable pub store_of : Text → Map Text Staged → Option ℕ
store_of id m = elim (get id m) [ none ↦ none | some s ↦ s.store ]

unfoldable pub is_open : ℕ → Map ℕ Store → Bool
is_open st m = elim (get st m) [ none ↦ false | some o ↦ not o.closed ]

pub store_of-put :
    (j id : Text) (s : Staged) (m : Map Text Staged)
    → store_of j (put id s m) ≡ (if text_beq id j then s.store else store_of j m)
unfolding store_of
store_of-put j id s m = ground (arith, get-put j id s m)

pub store_of-delete :
    (j id : Text) (m : Map Text Staged)
    → store_of j (delete id m) ≡ (if text_beq id j then none else store_of j m)
unfolding store_of
store_of-delete j id m = ground (arith, get-delete j id m)

pub is_open-put :
    (k st : ℕ) (o : Store) (m : Map ℕ Store)
    → is_open k (put st o m) ≡ (if st == k then not o.closed else is_open k m)
unfolding is_open
is_open-put k st o m = ground (arith, get-put k st o m)

pub is_open-change_store :
    (k st : ℕ) (f : Store → Store) (m : Map ℕ Store)
    → ((s : Store) → (f s).closed ≡ s.closed)
    → is_open k (change_store st f m) ≡ is_open k m
unfolding is_open
is_open-change_store k st f m same = elim (Option-cases (get st m)) [
  | inl gone ↦ ground arith
  | inr (s, e) ↦ ground (arith, get-put k st (f s) m, ==_iff st k, same s)
]

pub is_open-close_store :
    (k st : ℕ) (m : Map ℕ Store)
    → is_open k (close_store st m) ≡ (if st == k then false else is_open k m)
unfolding is_open close_store
is_open-close_store k st m = elim (Option-cases (get st m)) [
  | inl gone ↦ ground (arith, ==_iff st k)
  | inr (s, e) ↦ ground (arith, get-put k st (record s { closed = true }) m)
]

-- A staged file's store is open and no other file's, an open store is a staged file's, and the store
-- that comes next is not open yet.
pub record Owned (fresh : Option ℕ) (fs : Fs) : Type 0 where
  pub held :
      (id : Text) (st : ℕ) → store_of id fs.staged_files ≡ some st → is_open st fs.stores ≡ true
  pub sole :
      (i j : Text) (st : ℕ)
      → store_of i fs.staged_files ≡ some st
      → store_of j fs.staged_files ≡ some st
      → i ≡ j
  pub owner :
      (st : ℕ) → is_open st fs.stores ≡ true → (id : Text) × (store_of id fs.staged_files ≡ some st)
  pub free : (st : ℕ) → fresh ≡ some st → is_open st fs.stores ≡ false

module _ (fresh : Option ℕ) (fs fs' : Fs) (v : Owned fresh fs) where
  pub same-Owned :
      ((j : Text) → store_of j fs'.staged_files ≡ store_of j fs.staged_files)
      → ((k : ℕ) → is_open k fs'.stores ≡ is_open k fs.stores)
      → Owned fresh fs'
  same-Owned stores opens = record {
    held = λ id st e. opens st ∙ v.held id st (sym (stores id) ∙ e);
    sole = λ i j st e h. v.sole i j st (sym (stores i) ∙ e) (sym (stores j) ∙ h);
    owner = λ st e. let (id, h) = v.owner st (sym (opens st) ∙ e) in (id, stores id ∙ h);
    free = λ st e. opens st ∙ v.free st e;
  }

  -- A file loses its store, which is closed.
  pub drop-Owned :
      (id : Text) (st : ℕ)
      → store_of id fs.staged_files ≡ some st
      → ((j : Text)
          → store_of j fs'.staged_files
            ≡ (if text_beq id j then none else store_of j fs.staged_files))
      → ((k : ℕ) → is_open k fs'.stores ≡ (if st == k then false else is_open k fs.stores))
      → Owned fresh fs'
  drop-Owned id st mine stores opens = record {
    held =
        λ j k e. ground (arith, stores j, opens k, v.held j k, v.sole id j st, text_beq_iff id j);
    sole = λ i j k e h. ground (arith, stores i, stores j, v.sole i j k);
    owner = λ k e.
        let (j, h) = v.owner k (ground (arith, opens k)) in
        (j, ground (arith, stores j, opens k, text_beq_iff id j));
    free = λ k e. ground (arith, opens k, v.free k e);
  }

  -- A file without a store gets the next one.
  pub add-Owned :
      (id : Text) (st : ℕ)
      → fresh ≡ some st
      → store_of id fs.staged_files ≡ none
      → ((j : Text)
          → store_of j fs'.staged_files
            ≡ (if text_beq id j then some st else store_of j fs.staged_files))
      → ((k : ℕ) → is_open k fs'.stores ≡ (if st == k then true else is_open k fs.stores))
      → Owned none fs'
  add-Owned id st next empty stores opens = record {
    held = λ j k e. ground (arith, stores j, opens k, v.held j k, text_beq_iff id j);
    sole = λ i j k e h. ground (
      arith,
      stores i,
      stores j,
      v.sole i j k,
      v.held i k,
      v.held j k,
      v.free st next,
      text_beq_iff id i,
      text_beq_iff id j,
    );
    owner = λ k e. elim (Bool-cases (st == k)) [
      | inl same ↦ (id, ground (arith, stores id, text_beq_iff id id))
      | inr apart ↦
          let (j, h) = v.owner k (ground (arith, opens k)) in
          (j, ground (arith, stores j, text_beq_iff id j))
    ];
    free = λ k e. ground arith;
  }

pub forget-Owned : (fresh : Option ℕ) (fs : Fs) → Owned fresh fs → Owned none fs
forget-Owned fresh fs v = record {
  held = v.held;
  sole = v.sole;
  owner = v.owner;
  free = λ k e. ground arith;
}
