-- ===== src/Fetcher/RangeLru/Flights/Shared.antt =====
-- internal/fetcher/store_rangelru.go: activeReads has exactly the calls that fetch.
use fuse_stream_mvp.Base.{
  ℕ, ◌+◌, ◌<◌, ◌≤◌, ◌≢◌, ◌≡◌, sym, ap, subst, ◌∙◌, either, inl, inr, ◌⊎◌, Bool, true, some, arith,
  contains, Bool-cases, ◌==◌, ==_iff,
}
use fuse_stream_mvp.Base.Maps.{Map, get, put, delete, nat_eq, get-put, get-delete, get-delete_self}
use fuse_stream_mvp.Fetcher.RangeLru.Flights.{Pc, missed, fetching, waiting, Flights, look}

-- activeReads has the call that fetches, a call that fetches is in it, and a channel that a call waits
-- for is closed or that of the call in activeReads.
pub record IsShared (s : Flights) : Type 0 where
  pub owns :
      (o i : ℕ)
      → get o s.active_reads ≡ some i
      → (b : Bool) × (get i s.calls_at ≡ some (fetching b o))
  pub busy :
      (i o : ℕ) (b : Bool) → get i s.calls_at ≡ some (fetching b o) → get o s.active_reads ≡ some i
  pub waits :
      (i o d : ℕ)
      → get i s.calls_at ≡ some (waiting o d)
      → (contains d s.closed ≡ true) ⊎ (get o s.active_reads ≡ some d)
  pub known : (i : ℕ) (pc : Pc) → get i s.calls_at ≡ some pc → i < s.next

pub eq-or-ne : (i j : ℕ) → (i ≡ j) ⊎ (i ≢ j)
eq-or-ne i j = elim (Bool-cases (i == j)) [
  | inl same ↦ inl ((==_iff i j).0 same)
  | inr apart ↦ inr (λ e. ground (arith, (==_iff i j).1 e))
]

-- A call goes on to a place where it does not fetch, from one where it did not.
pub idle-IsShared :
    (s : Flights) (i : ℕ) (n : ℕ) (calls : Map ℕ Pc)
    → ((j : ℕ) → i ≢ j → get j calls ≡ get j s.calls_at)
    → ((o : ℕ) (b : Bool) → get i s.calls_at ≢ some (fetching b o))
    → ((o : ℕ) (b : Bool) → get i calls ≢ some (fetching b o))
    → ((o d : ℕ) → get i calls ≡ some (waiting o d) → get o s.active_reads ≡ some d)
    → s.next ≤ n
    → ((pc : Pc) → get i calls ≡ some pc → i < n)
    → IsShared s
    → IsShared (record s { calls_at = calls; next = n })
idle-IsShared s i n calls same was now waits later fresh v = record {
  owns = λ o j e.
      let (b, h) = v.owns o j e in
      (
        b,
        elim (eq-or-ne i j) [
          | inl here ↦ absurd (was o b (ap (λ k. get k s.calls_at) here ∙ h))
          | inr other ↦ same j other ∙ h
        ],
      );
  busy = λ j o b e. elim (eq-or-ne i j) [
    | inl here ↦ absurd (now o b (ap (λ k. get k calls) here ∙ e))
    | inr other ↦ v.busy j o b (sym (same j other) ∙ e)
  ];
  waits = λ j o d e. elim (eq-or-ne i j) [
    | inl here ↦ inr (waits o d (ap (λ k. get k calls) here ∙ e))
    | inr other ↦ v.waits j o d (sym (same j other) ∙ e)
  ];
  known = λ j pc e. elim (eq-or-ne i j) [
    | inl here ↦ subst (λ k. k < n) here (fresh pc (ap (λ k. get k calls) here ∙ e))
    | inr other ↦ omega (arith, v.known j pc (sym (same j other) ∙ e))
  ];
}

pub put_ne : (i j : ℕ) (pc : Pc) (m : Map ℕ Pc) → i ≢ j → get j (put i pc m) ≡ get j m
put_ne i j pc m ne = ground (arith, get-put j i pc m)

pub put_self : (i : ℕ) (pc : Pc) (m : Map ℕ Pc) → get i (put i pc m) ≡ some pc
put_self i pc m = ground (arith, get-put i i pc m)

delete_ne : (i j : ℕ) (m : Map ℕ Pc) → i ≢ j → get j (delete i m) ≡ get j m
delete_ne i j m ne = ground (arith, get-delete j i m)

pub look-IsShared : (o : ℕ) (s : Flights) → IsShared s → IsShared (look o s)
unfolding look
look-IsShared o s v =
    let new = put s.next (missed o) s.calls_at in
    either IsShared (contains o s.cache) v (
      idle-IsShared s s.next (s.next + 1) new (λ j ne. put_ne s.next j (missed o) s.calls_at ne)
        (λ q b e. absurd (ground (arith, v.known s.next (fetching b q) e)))
        (λ q b e. absurd (ground (arith, put_self s.next (missed o) s.calls_at)))
        (λ q d e. absurd (ground (arith, put_self s.next (missed o) s.calls_at))) (omega arith)
        (λ pc e. omega arith) v)

-- A call that waits or has missed ends.
pub end-IsShared :
    (s : Flights) (i : ℕ)
    → ((o : ℕ) (b : Bool) → get i s.calls_at ≢ some (fetching b o))
    → IsShared s
    → IsShared (record s { calls_at = delete i s.calls_at })
end-IsShared s i was v =
    let gone = get-delete_self i s.calls_at in
    idle-IsShared s i s.next (delete i s.calls_at) (λ j ne. delete_ne i j s.calls_at ne) was
      (λ o b e. ground arith) (λ o d e. absurd (ground arith)) (omega arith)
      (λ pc e. absurd (ground arith)) v
