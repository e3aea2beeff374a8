-- ===== src/Leases.antt =====
-- src/hca/leases.py: the durable lease of a launched worker.
use hermes_concurrent_agents.Common.{
  ℕ, String, ◌≡◌, refl, sym, ap, subst, ◌∙◌, inl, inr, Bool, true, false, not, Option, none, some,
  List, [], ◌∷◌, ◌++◌, arith, eq_iff, nat_eq, string_eq, Bool-cases, filter, contains,
}
use hermes_concurrent_agents.StateDb.{Lease, StateDb, has_lease, new_lease, acquire_lease}
use hermes_concurrent_agents.Common.Json.{Fields, end, field, text, num, null, Value}
use hermes_concurrent_agents.Common.Words.{codes}
use hermes_concurrent_agents.StateDb.Like.{
  release_lease_prefix, prefix_like, prefix_like_iff, begins_alike, alike,
}
use Prim.Native.String.{◌++◌ as append}
use Prim.Native.String.append as parts
use Prim.Native.Char.{code}

unfoldable pub worker_lease_prefix : String → String → String
worker_lease_prefix board task_id = append "run:" (append board (append ":" (append task_id ":")))

unfoldable pub worker_lease_id : String → String → String → String
worker_lease_id board task_id run_id =
    append "run:" (append board (append ":" (append task_id (append ":" run_id))))

abbrev num_or_null : Option ℕ → Value
num_or_null none = null
num_or_null (some n) = num n

unfoldable pub worker_meta :
    String → String → String → String → String → Option ℕ → Option ℕ → Fields
worker_meta board task_id run_id slot host pid pid_start_ticks = field "board" (text board) (
    field "task_id" (text task_id) (
      field "run_id" (text run_id) (
        field "slot" (text slot) (
          field "node" (text host) (
            field "pid" (num_or_null pid)
              (field "pid_start_ticks" (num_or_null pid_start_ticks) end))))))

unfoldable pub acquire_worker_lease :
    StateDb
    → String
    → String
    → String
    → String
    → Option ℕ
    → Option ℕ
    → String
    → ℕ
    → ℕ
    → Bool × StateDb
unfolding worker_lease_id worker_meta
acquire_worker_lease db board task_id run_id slot pid pid_start_ticks host credits now =
    acquire_lease db (worker_lease_id board task_id run_id) "worker" slot credits none
      (worker_meta board task_id run_id slot host pid pid_start_ticks) now

unfoldable pub release_worker_lease : StateDb → String → String → ℕ × StateDb
unfolding worker_lease_prefix
release_worker_lease db board task_id = release_lease_prefix db (worker_lease_prefix board task_id)

codes-append : (s t : String) → codes (append s t) ≡ codes s ++ codes t
codes-append String.[] t = ap codes (parts.nil t)
codes-append (String.◌∷◌ c s) t =
    ap codes (parts.cons c s t) ∙ ap (λ cs. code c ∷ cs) (codes-append s t)

alike_refl : (c : ℕ) → alike c c ≡ true
unfolding alike
alike_refl c = ground arith

begins_alike-append : (xs ps cs : List ℕ) → begins_alike (xs ++ ps) (xs ++ cs) ≡ begins_alike ps cs
unfolding begins_alike
begins_alike-append [] ps cs = refl
begins_alike-append (x ∷ xs) ps cs = rw (alike_refl x) (begins_alike-append xs ps cs)

-- A common beginning of two texts does not tell them apart.
common_head :
    (s t u : String)
    → begins_alike (codes (append s t)) (codes (append s u)) ≡ begins_alike (codes t) (codes u)
common_head s t u =
    rw (codes-append s t, codes-append s u) (begins_alike-append (codes s) (codes t) (codes u))

prefix-worker_lease_id :
    (board task_id run_id : String)
    → begins_alike
        (codes (worker_lease_prefix board task_id))
        (codes (worker_lease_id board task_id run_id))
      ≡ true
unfolding worker_lease_prefix worker_lease_id
prefix-worker_lease_id board task_id run_id =
    common_head "run:" (append board (append ":" (append task_id ":")))
      (append board (append ":" (append task_id (append ":" run_id))))
    ∙ (common_head board (append ":" (append task_id ":"))
          (append ":" (append task_id (append ":" run_id)))
        ∙ (common_head ":" (append task_id ":") (append task_id (append ":" run_id))
            ∙ (common_head task_id ":" (append ":" run_id) ∙ colon)))
  where
    colon : begins_alike (codes ":") (codes (append ":" run_id)) ≡ true
    colon = rw (codes-append ":" run_id) (unfold begins_alike alike in refl)

contains-append_plain :
    (xs ys : List ℕ)
    → contains b'\\' xs ≡ false
    → contains b'\\' ys ≡ false
    → contains b'\\' (xs ++ ys) ≡ false
contains-append_plain [] ys h k = k
contains-append_plain (x ∷ xs) ys h k = ground (arith, contains-append_plain xs ys)

abbrev pub IsPlain : String → Type 0
IsPlain s = contains b'\\' (codes s) ≡ false

append-IsPlain : (s t : String) → IsPlain s → IsPlain t → IsPlain (append s t)
append-IsPlain s t h k = rw (codes-append s t) (contains-append_plain (codes s) (codes t) h k)

worker_lease_prefix-IsPlain :
    (board task_id : String)
    → IsPlain board
    → IsPlain task_id
    → IsPlain (worker_lease_prefix board task_id)
unfolding worker_lease_prefix
worker_lease_prefix-IsPlain board task_id h k =
    append-IsPlain "run:" (append board (append ":" (append task_id ":"))) refl (
      append-IsPlain board (append ":" (append task_id ":")) h
        (append-IsPlain ":" (append task_id ":") refl (append-IsPlain task_id ":" k refl)))

has_lease-deleted :
    (p : Lease → Bool) (i : String) (ls : List Lease)
    → ((l : Lease) → l.lease_id ≡ i → p l ≡ true)
    → has_lease i (filter (λ l. not (p l)) ls) ≡ false
has_lease-deleted p i [] h = refl
has_lease-deleted p i (l ∷ ls) h = elim (Bool-cases (p l)) [
  | inl gone ↦ rw gone (has_lease-deleted p i ls h)
  | inr kept ↦ ground (arith, kept, eq_iff l.lease_id i, h l, has_lease-deleted p i ls h)
]

has_lease-added :
    (i : String) (ls : List Lease) (l : Lease) → l.lease_id ≡ i → has_lease i (ls ++ l ∷ []) ≡ true
has_lease-added i [] l e = ground (arith, eq_iff l.lease_id i)
has_lease-added i (x ∷ ls) l e = ground (arith, has_lease-added i ls l e)

freed :
    (db : StateDb) (board task_id run_id : String)
    → IsPlain board
    → IsPlain task_id
    → has_lease
        (worker_lease_id board task_id run_id)
        (release_worker_lease db board task_id).1.leases
      ≡ false
unfolding release_worker_lease release_lease_prefix
freed db board task_id run_id h k =
    has_lease-deleted (λ l. prefix_like (worker_lease_prefix board task_id) l.lease_id)
      (worker_lease_id board task_id run_id) db.leases
      (λ l e.
        prefix_like_iff (worker_lease_prefix board task_id) l.lease_id
          (worker_lease_prefix-IsPlain board task_id h k)
        ∙ subst (λ i. begins_alike (codes (worker_lease_prefix board task_id)) (codes i) ≡ true)
            (sym e) (prefix-worker_lease_id board task_id run_id))

held :
    (db : StateDb) (lease_id kind owner : String) (credits : ℕ) (ttl : Option ℕ) (details : Fields)
    (now : ℕ)
    → has_lease lease_id (acquire_lease db lease_id kind owner credits ttl details now).1.leases
      ≡ true
unfolding acquire_lease
held db lease_id kind owner credits ttl details now =
    elim (Bool-cases (has_lease lease_id db.leases)) [
      | inl old ↦ rw old old
      | inr fresh ↦ rw fresh (
          has_lease-added lease_id db.leases (new_lease lease_id kind owner credits ttl details now)
            refl)
    ]

refused_if :
    (db : StateDb) (lease_id kind owner : String) (credits : ℕ) (ttl : Option ℕ) (details : Fields)
    (now : ℕ)
    → has_lease lease_id db.leases ≡ true
    → acquire_lease db lease_id kind owner credits ttl details now ≡ (false, db)
unfolding acquire_lease
refused_if db lease_id kind owner credits ttl details now h = rw h refl

granted_if :
    (db : StateDb) (lease_id kind owner : String) (credits : ℕ) (ttl : Option ℕ) (details : Fields)
    (now : ℕ)
    → has_lease lease_id db.leases ≡ false
    → (acquire_lease db lease_id kind owner credits ttl details now).0 ≡ true
unfolding acquire_lease
granted_if db lease_id kind owner credits ttl details now h = rw h refl

-- Once the lease of a worker run was asked for, asking again is refused and changes nothing; after
-- the leases of its board and task are released, it is granted, whatever the ledger held. Board and
-- task are without a backslash.
pub worker_lease_cycle :
    (db : StateDb) (board task_id run_id slot host : String) (pid ticks : Option ℕ)
    (credits now later : ℕ)
    → IsPlain board
    → IsPlain task_id
    → (acquire_worker_lease
          (acquire_worker_lease db board task_id run_id slot pid ticks host credits now).1
          board
          task_id
          run_id
          slot
          pid
          ticks
          host
          credits
          later
        ≡ (false, (acquire_worker_lease db board task_id run_id slot pid ticks host credits now).1))
      × ((acquire_worker_lease
            (release_worker_lease db board task_id).1
            board
            task_id
            run_id
            slot
            pid
            ticks
            host
            credits
            later).0
          ≡ true)
unfolding acquire_worker_lease
worker_lease_cycle db board task_id run_id slot host pid ticks credits now later h k = (
  refused_if (acquire_worker_lease db board task_id run_id slot pid ticks host credits now).1
      (worker_lease_id board task_id run_id) "worker" slot credits none
      (worker_meta board task_id run_id slot host pid ticks) later
      (held db (worker_lease_id board task_id run_id) "worker" slot credits none
        (worker_meta board task_id run_id slot host pid ticks) now),
  granted_if (release_worker_lease db board task_id).1 (worker_lease_id board task_id run_id)
      "worker" slot credits none (worker_meta board task_id run_id slot host pid ticks) later
      (freed db board task_id run_id h k),
)
